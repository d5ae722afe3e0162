-- ===== src/Handlers/Send.antt =====
-- The functions `send_json` of server/src/api/router/handlers: from a reply to the bytes on the
-- socket.
pub mod Laws
use sshnack.Base.{ℕ, ◌+◌, ◌-◌, ◌==◌, Bool, [], ◌∷◌, ◌++◌, if◌then◌else◌, length, take, ltb}
use sshnack.Base.Int.{pos}
use sshnack.Base.Text.{Text, codes}
use sshnack.Base.Number.{print_int}
use sshnack.Handlers.{Reply}

-- What a connection gets: these bytes, or bytes from beyond the end of a buffer, or nothing that the
-- C standard defines, since a buffer was written beyond its end.
pub data Sent : Type 0 where
  sent : Text → Sent
  past_buffer overflow : Sent

-- The status lines of the five files.
unfoldable pub products_status : ℕ → Text
products_status status =
    if status == 200
    then codes "200 OK"
    else if status == 404
    then codes "404 Not Found"
    else codes "500 Internal Server Error"

unfoldable pub admin_status : ℕ → Text
admin_status status =
    if status == 200
    then codes "200 OK"
    else if status == 400
    then codes "400 Bad Request"
    else if status == 403
    then codes "403 Forbidden"
    else codes "500 Internal Server Error"

unfoldable pub balance_status : ℕ → Text
balance_status status =
    if status == 200
    then codes "200 OK"
    else if status == 400
    then codes "400 Bad Request"
    else if status == 401
    then codes "401 Unauthorized"
    else if status == 404
    then codes "404 Not Found"
    else codes "500 Internal Server Error"

unfoldable pub orders_status : ℕ → Text
orders_status status =
    if status == 200
    then codes "200 OK"
    else if status == 400
    then codes "400 Bad Request"
    else if status == 401
    then codes "401 Unauthorized"
    else codes "500 Internal Server Error"

unfoldable pub users_status : ℕ → Text
users_status status =
    if status == 200
    then codes "200 OK"
    else if status == 400
    then codes "400 Bad Request"
    else codes "500 Internal Server Error"

-- The text that `snprintf` formats.
unfoldable pub message : Text → Text → Text
message status_str body =
    codes "HTTP/1.1 "
    ++ (status_str
        ++ (codes "\r\nContent-Type: application/json\r\nContent-Length: "
            ++ print_int (pos (length body)) (codes "\r\n\r\n" ++ body)))

-- `send(sock, resp, len, 0)` after an `snprintf` into `size` bytes: `len` is the length of the whole
-- text, but the buffer holds at most `size - 1` bytes of it and a NUL.
unfoldable pub send_formatted : ℕ → Text → Sent
send_formatted size text =
    if ltb (length text) size
    then sent text
    else if length text == size
    then sent (take (size - 1) text ++ 0 ∷ [])
    else past_buffer

unfoldable pub send_json : (ℕ → Text) → ℕ → Reply → Sent
unfolding message send_formatted
send_json status_str size r = send_formatted size (message (status_str r.status) r.body)
