-- ===== src/Interfaces.antt =====
-- C/simple_interface_info.c: free_ifi_info in Release, get_ifi_info and main in Listing, and
-- the loop that prints in Show.
pub mod Release
pub mod Show
pub mod Listing
mod Tests
