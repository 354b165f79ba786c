-- ===== src/Api/Chat/Request.antt =====
-- The request that `chat_completions` of src/api.rs writes to the relay.
use enjambre_worker.Prelude.{ℕ, ◌≡◌, refl, false, ◌≢◌, [], ◌∷◌, ◌++◌, some, length, arith}
use enjambre_worker.Prelude.Text.{Text, codes, Lacks}
use enjambre_worker.Prelude.Decimal.{to_decimal, to_decimal-Lacks_return}
use enjambre_worker.Http.{at_end, cut_headers}
use enjambre_worker.Api.Chat.{full_request}

at_end_ne : (c : ℕ) (s : Text) → c ≢ b'\r' → at_end (c ∷ s) ≡ false
at_end_ne c [] n = refl
at_end_ne c (x ∷ []) n = refl
at_end_ne c (x ∷ y ∷ []) n = refl
at_end_ne c (x ∷ y ∷ z ∷ s) n = ground (arith, n)

-- Text without a carriage return in front moves the headers' end.
cut_headers-line :
    (l s h b : Text)
    → Lacks b'\r' l
    → cut_headers s ≡ some (h, b)
    → cut_headers (l ++ s) ≡ some (l ++ h, b)
unfolding cut_headers
cut_headers-line [] s h b n e = e
cut_headers-line (c ∷ l) s h b (k, n) e =
    ground (arith, at_end_ne c (l ++ s) k, cut_headers-line l s h b n e)

at_end_return : (c : ℕ) (s : Text) → c ≢ b'\r' → at_end (b'\r' ∷ b'\n' ∷ c ∷ s) ≡ false
at_end_return c [] n = refl
at_end_return c (x ∷ s) n = ground (arith, n)

-- So does a line end with more of the headers behind it.
cut_headers-line_end :
    (c : ℕ) (s h b : Text)
    → c ≢ b'\r'
    → cut_headers (c ∷ s) ≡ some (h, b)
    → cut_headers (b'\r' ∷ b'\n' ∷ c ∷ s) ≡ some (b'\r' ∷ b'\n' ∷ h, b)
cut_headers-line_end c s h b n e =
    unfold cut_headers in ground (arith, at_end_ne b'\n' (c ∷ s), at_end_return c s n, e)

abbrev pub request_head : Text → ℕ → Text
request_head relay_addr content_length =
    codes "POST /v1/chat/completions HTTP/1.1\r\nHost: "
    ++ (relay_addr
        ++ (codes "\r\nContent-Type: application/json\r\nContent-Length: "
            ++ (to_decimal content_length ++ codes "\r\nConnection: close")))

-- A relay whose address has no carriage return finds the end of the request's headers where they
-- end, with the length of the body in them and the body as it was sent behind them.
cut_headers-full_request :
    (relay_addr body : Text)
    → Lacks b'\r' relay_addr
    → cut_headers (full_request relay_addr body)
      ≡ some (request_head relay_addr (length body), body)
unfolding full_request
cut_headers-full_request relay_addr body n =
    let length_text = to_decimal (length body) in
    let e0 : cut_headers (codes "\r\nConnection: close\r\n\r\n" ++ body)
        ≡ some (codes "\r\nConnection: close", body) =
      (unfold cut_headers in refl) in
    let e1 =
      cut_headers-line length_text (codes "\r\nConnection: close\r\n\r\n" ++ body)
        (codes "\r\nConnection: close") body (to_decimal-Lacks_return (length body)) e0 in
    let e2 = cut_headers-line (codes "Content-Length: ") _ _ body (ground arith) e1 in
    let e3 = cut_headers-line_end b'C' _ _ body (omega arith) e2 in
    let e4 = cut_headers-line (codes "Content-Type: application/json") _ _ body (ground arith) e3 in
    let e5 = cut_headers-line_end b'C' _ _ body (omega arith) e4 in
    let e6 = cut_headers-line relay_addr _ _ body n e5 in
    let e7 = cut_headers-line (codes "Host: ") _ _ body (ground arith) e6 in
    let e8 = cut_headers-line_end b'H' _ _ body (omega arith) e7 in
    cut_headers-line (codes "POST /v1/chat/completions HTTP/1.1") _ _ body (ground arith) e8
