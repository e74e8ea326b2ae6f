-- ===== src/StrCli/Time.antt =====
-- gf_time of C/nonblock_stream_client.c, which makes the time for the messages of str_cli.
use network_pragramming.Prelude.{ℕ, ◌-◌, [], ◌∷◌, ◌++◌, Bytes, length, take, drop, replicate}
use network_pragramming.Sys.{Answer, failed, gave, Prog, returns, exit, exit_failure}
use network_pragramming.Decimal.{decimal}

-- What gettimeofday gives: the text that ctime makes of the seconds, and the microseconds.
pub record Now : Type 0 where
  pub text : Bytes
  pub tv_usec : ℕ

-- sizeof(str) - 8
abbrev rest_size : ℕ
rest_size = 22

-- "%06ld"
padded : ℕ → Bytes
padded n = replicate (6 - length (decimal n)) b'0' ++ decimal n

-- The text from index 11 on, with what snprintf writes from its index 8 on.
time_of_day : Now → Bytes
unfolding padded
time_of_day now = take 8 (drop 11 now.text) ++ take (rest_size - 1) (b'.' ∷ padded now.tv_usec)

unfoldable pub gf_time : Answer Now → Prog Bytes
unfolding time_of_day
gf_time (failed e) = exit exit_failure
gf_time (gave now) = returns [] (time_of_day now)
