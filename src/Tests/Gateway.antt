-- ===== src/Tests/Gateway.antt =====
-- gateway/gateway.c
use vajra_ai.Prelude.{ℕ, ◌≤◌, ◌≡◌, refl, true, false, some, none, [], ◌∷◌, ◌++◌}
use vajra_ai.Prelude.Int.{pos}
use vajra_ai.CString.{Bytes, codes, equal, strstr, until_nul, has_prefix_nocase, skip_space}
use vajra_ai.CString.Number.{scan_int, decimal}
use vajra_ai.Memory.{done, Ensures}
use vajra_ai.Gateway.{Host, Gateway, gateway_create, send_response, error_response}
use vajra_ai.Gateway.Request.{
  FitsStart, joined_pieces, read_request, read_request-FitsStart, request_line,
}
use vajra_ai.Gateway.Route.{Touched, Fails, route, gateway_conn_thread, route-Touched}
use vajra_ai.Gateway.Slots
use vajra_ai.Gateway.Slots.{
  Slots, started, Step, waited, left, spawned, destroyed, Steps, here, then_step, max_threads,
  threads_bounded,
}
use vajra_ai.Tests.Json.{Json, json}
use vajra_ai.Tests.Agent.{one_tool}

abbrev host : Host
host = record { open_file = λ p. none; getenv = λ v. none; popen = λ c. none }

abbrev gateway : Gateway Json ℕ
gateway = gateway_create host none none (pos 0) none false 0

abbrev post : Bytes
post = codes "POST /api/chat?x HTTP/1.1\r\nContent-Length: 2\r\n\r\n{}"

line_runs : request_line post ≡ (codes "POST", codes "/api/chat")
unfolding request_line skip_space
line_runs = refl

-- The body comes in a second piece.
read_runs :
    read_request
      (λ n. [])
      (codes "P / H\r\nContent-Length: 2\r\n\r\n" ∷ codes "{}" ∷ codes "x" ∷ [])
    ≡ some (codes "P / H\r\nContent-Length: 2\r\n\r\n{}")
unfolding read_request strstr has_prefix_nocase skip_space scan_int
read_runs = refl

-- Bytes that were left in the buffer end the loop before the body has come.
stale_runs :
    read_request (λ n. codes "\r\n\r\n") (codes "P / H\r\nX: 1" ∷ codes "\r\n\r\n{}" ∷ [])
    ≡ some (codes "P / H\r\nX: 1")
unfolding read_request strstr has_prefix_nocase skip_space scan_int
stale_runs = refl

-- The response to a favicon request is no error, but it names one.
favicon_runs :
    send_response (record { status = 204; content_type = codes "image/x-icon"; body = [] })
    ≡ codes "HTTP/1.1 204 Internal Server Error\r\nContent-Type: image/x-icon\r\n"
      ++ codes "Content-Length: 0\r\nAccess-Control-Allow-Origin: *\r\nConnection: close\r\n\r\n"
unfolding send_response decimal
favicon_runs = refl

chat_runs :
    gateway_conn_thread json one_tool host (λ n. []) (post ∷ []) gateway
    ≡ done (some (error_response 503 (codes "Agent not initialised")), gateway)
unfolding gateway_conn_thread gateway_create strstr has_prefix_nocase skip_space scan_int equal
chat_runs = refl

read_request-FitsStart_example :
    (received : Bytes) × (post ≡ until_nul received)
    × FitsStart (joined_pieces (post ∷ [])) received
read_request-FitsStart_example =
    read_request-FitsStart (λ n. []) (post ∷ []) post
      (unfold read_request strstr has_prefix_nocase skip_space scan_int in refl)

route-Touched_example :
    Ensures
      (Fails json one_tool gateway (codes "POST") (codes "/api/chat") post)
      (λ out. Touched json one_tool gateway (codes "POST") (codes "/api/chat") post out.1)
      (route json one_tool host gateway (codes "POST") (codes "/api/chat") post)
route-Touched_example =
    route-Touched json one_tool gateway (codes "POST") (codes "/api/chat") post host

abbrev serving : Slots
serving = record { free = 7; workers = 1; holds = false; returned = false; running = true }

served : Steps started serving
served =
    then_step (then_step here (let first : Step started _ = waited 7 refl refl refl in first))
      (let second : Step _ serving = spawned refl refl in second)

abbrev closing : Slots
closing = record { free = 7; workers = 1; holds = false; returned = true; running = false }

-- gateway_destroy() can join the listener while a connection is still served.
closing_runs : Steps started closing
closing_runs =
    then_step (then_step served (let cleared : Step serving _ = destroyed in cleared))
      (let ended : Step _ closing = left refl refl refl in ended)

threads_bounded_example : Slots.IsValid serving × (serving.workers ≤ max_threads)
threads_bounded_example = threads_bounded served
