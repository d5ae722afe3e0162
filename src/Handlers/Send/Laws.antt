-- ===== src/Handlers/Send/Laws.antt =====
-- When `send_json` sends a reply whole.
use sshnack.Base.{◌+◌, ◌≤◌, ◌<◌, ◌≡◌, ℕ, ◌++◌, arith, length, length-append}
use sshnack.Base.Int.{pos}
use sshnack.Base.Text.{Text, codes}
use sshnack.Base.Number.{print_int}
use sshnack.App.Money.Laws.{length-digits_onto}
use sshnack.Handlers.{Reply}
use sshnack.Handlers.Send.{sent, message, send_formatted, send_json}

length-print_size :
    (n : ℕ) (rest : Text) → n < 10000 → length (print_int (pos n) rest) ≤ 4 + length rest
unfolding print_int
length-print_size n rest h =
    omega (arith, length-digits_onto (n + 1) n 3 rest (omega arith) (omega arith))

length-message :
    (status_str body : Text)
    → length body < 10000
    → length (message status_str body) ≤ length status_str + length body + 67
unfolding message
length-message status_str body h =
    let size = print_int (pos (length body)) (codes "\r\n\r\n" ++ body) in
    omega (
      arith,
      length-print_size (length body) (codes "\r\n\r\n" ++ body) h,
      length-append status_str
          (codes "\r\nContent-Type: application/json\r\nContent-Length: " ++ size),
    )

pub send_json_whole :
    (status_str : ℕ → Text) (size : ℕ) (r : Reply)
    → length (status_str r.status) + length r.body + 67 < size
    → size ≤ 8192
    → send_json status_str size r ≡ sent (message (status_str r.status) r.body)
unfolding send_json send_formatted
send_json_whole status_str size r h small =
    ground (arith, length-message (status_str r.status) r.body (omega arith))
