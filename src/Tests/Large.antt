-- ===== src/Tests/Large.antt =====
-- A reply and a file of 2 ^ 31 bytes and more.
use looka.Common.{
  ℕ, zero, suc, ◌≤◌, ◌<◌, ◌^◌, [], length, replicate, true, ◌≡◌, refl, ap, arith, some,
}
use looka.Common.Bytes.{Bytes}
use looka.Common.Int.{pos}
use looka.Common.Result.{ok}
use looka.File.{read_index_from_file}
use looka.File.ReadBack.{read_index_from_file-negsuc}
use looka.Http.Reply.{HttpReply, status_ok}
use looka.Http.Send.{send_reply, send_reply-negsuc}
use looka.Http.Server.{reply_text}
use looka.Inverter.{new_inverter}

-- As many bytes as make the length of an `int` negative.
unfoldable large_bytes : Bytes
large_bytes = replicate 2147483648 97

length-large_bytes : length large_bytes ≡ 2147483648
unfolding large_bytes
length-large_bytes = length-replicate 2147483648
  where
    length-replicate : (n : ℕ) → length (replicate {A = ℕ} n 97) ≡ n
    length-replicate zero = refl
    length-replicate (suc n) = ap suc (length-replicate n)

abbrev large_reply : HttpReply
large_reply = record { status = status_ok; headers = []; content = large_bytes }

large_text : 2 ^ 31 ≤ length (reply_text [] [] large_reply)
unfolding reply_text
large_text = omega (arith, length-large_bytes)

small_text : length (reply_text [] [] large_reply) < 2 ^ 32
unfolding reply_text
small_text = omega (arith, length-large_bytes)

send_reply-negsuc_example : send_reply [] [] [] large_reply ≡ ([], pos 0)
send_reply-negsuc_example = send_reply-negsuc [] [] [] large_reply large_text small_text

read_index_from_file-negsuc_example :
    read_index_from_file (some large_bytes) new_inverter ≡ ok (true, new_inverter)
read_index_from_file-negsuc_example =
    read_index_from_file-negsuc large_bytes new_inverter (omega (arith, length-large_bytes))
      (omega (arith, length-large_bytes))
