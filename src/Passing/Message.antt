-- ===== src/Passing/Message.antt =====
-- read_fd of C/mycat.c and write_fd of C/openfile.c: messages that carry a descriptor.
use network_pragramming.Prelude.{
  ℕ, Bool, true, false, ◌&&◌, Option, none, some, [], ◌∷◌, Bytes, take, ◌==◌, if◌then◌else◌,
}
use network_pragramming.Sys.{
  Level, Kind, Control, Message, Call, Prog, returns, exits, exit_failure, ◌>>=◌,
}

-- What a call answers: the number that it leaves in errno, or a value.
pub data Numbered {ℓ} (A : Type ℓ) : Type ℓ where
  error : ℕ → Numbered A
  value : A → Numbered A

-- sizeof(int)
abbrev pub int_size : ℕ
int_size = 4

-- The message that write_fd composes in msg, iov and control_un.
unfoldable pub rights_message : Bytes → ℕ → Message
rights_message bytes fd = record {
  bytes = bytes;
  control =
      some (record {
        size = int_size;
        level = Level.sol_socket;
        kind = Kind.scm_rights;
        data_int = fd;
      });
}

-- write_fd; sendmsg gets that message, and fails with a number in errno, or takes some bytes.
unfoldable pub write_fd : ℕ → Bytes → ℕ → Numbered ℕ → Prog (Numbered ℕ)
unfolding rights_message
write_fd sock bytes fd a = returns (Call.send_msg sock (rights_message bytes fd) ∷ []) a

-- What read_fd leaves: a result of 0 or less with *recvfd as it was, or the bytes, with -1 in
-- *recvfd for `none`.
pub data Received : Type 0 where
  unread : Received
  got : Bytes → Option ℕ → Received

is_sol_socket : Level → Bool
is_sol_socket Level.sol_socket = true
is_sol_socket Level.other_level = false

is_scm_rights : Kind → Bool
is_scm_rights Kind.scm_rights = true
is_scm_rights Kind.other_kind = false

-- The tests of the control message.
pub read_control : Bytes → Option Control → Prog Received
unfolding is_sol_socket is_scm_rights
read_control bytes none = returns [] (got bytes none)
read_control bytes (some c) =
    if c.size == int_size
    then (if is_sol_socket c.level && is_scm_rights c.kind
        then returns [] (got bytes (some c.data_int))
        else exits [] exit_failure)
    else returns [] (got bytes none)

-- What follows recvmsg, with at most `nbytes` bytes stored.
pub read_message : Bytes → Option Control → Prog Received
unfolding read_control
read_message [] control = returns [] unread
read_message (b ∷ bytes) control = read_control (b ∷ bytes) control

-- read_fd
unfoldable pub read_fd : ℕ → ℕ → Numbered Message → Prog Received
unfolding read_message
read_fd sock nbytes (error e) = returns (Call.recv_msg sock nbytes ∷ []) unread
read_fd sock nbytes (value m) = returns (Call.recv_msg sock nbytes ∷ []) tt >>= λ _.
    read_message (take nbytes m.bytes) m.control
