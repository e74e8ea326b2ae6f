-- ===== src/Passing.antt =====
-- C/mycat.c and C/openfile.c: a program that lets a child process open a file for it, and gets the
-- descriptor over a socket. The two programs meet in `session`.
pub mod Message
pub mod Openfile
pub mod Mycat
pub mod Session
mod Tests
