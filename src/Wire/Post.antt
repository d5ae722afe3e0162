-- ===== src/Wire/Post.antt =====
-- One POST of the client, from its options to its result.
use sshnack.Base.{
  ℕ, ◌≡◌, ◌≢◌, ◌⊎◌, ◌≤◌, ◌++◌, inl, inr, refl, arith, Bool, false, Option, none, some, [], ◌∷◌,
  length, take, ap, sym, ◌∙◌,
}
use sshnack.Base.Int.{pos}
use sshnack.Base.Text.{Text, codes, str_eq}
use sshnack.Base.Number.{print_int}
use sshnack.Auth.{auth_user}
use sshnack.Api.{bearer_of, strip_nocase, parse_method}
use sshnack.Api.Laws.{last_bearer}
use sshnack.Router.{Request, post}
use sshnack.Tables.{Tables}
use sshnack.Sqlite.{Prog, Sqlite, IsSqlite, run}
use sshnack.Services.Common.{idle}
use sshnack.App.Money.Laws.{take-length}
use sshnack.Config.Laws.{IsUser, user_token}
use sshnack.Handlers.{Reply}
use sshnack.Handlers.Laws.{Served, run-map}
use sshnack.Handlers.Send.{sent, message, send_json}
use sshnack.Server.{Server, sending}
use sshnack.Server.Fits.{Whole, status_of}
use sshnack.Client.Laws.{length-print_int}
use sshnack.Client.Http.{ApiClient, Transfer, Buf, options_for, fields_for, bearer_line, performed}
use sshnack.Client.Calls.{status_only}
use sshnack.Wire.{carried}
use sshnack.Wire.Told.{Told, Served-Told, status_only-Told}

-- The server reads the user's number from the header of the client.
pub token_read :
    (c : ApiClient)
    → IsUser c.user_id
    → last_bearer [] (bearer_line c false ∷ codes "Content-Type: application/json" ∷ [])
      ≡ print_int c.user_id []
unfolding bearer_line bearer_of strip_nocase
token_read c h =
    let short : length (print_int c.user_id []) ≤ 11 =
      omega (arith, length-print_int c.user_id [] h.1) in
    rw (take-length 177 (print_int c.user_id []) (omega (arith, short)))
      (take-length 127 (print_int c.user_id []) (omega (arith, short)))

abbrev pub post_request : ApiClient → Text → Text → Request
post_request c path body = record {
  method = some post;
  path = path;
  body = body;
  auth = record { role = auth_user; user_id = c.user_id };
}

pub carried_post :
    (c : ApiClient) (server : Server) (target : Text → Text) (path body : Text)
    → IsUser c.user_id
    → print_int c.user_id [] ≢ server.admin_token
    → target (take 511 (c.base_url ++ path)) ≡ path
    → length body ≤ 511
    → carried server target (options_for c (codes "POST") path (some body) false)
      ≡ post_request c path body
unfolding options_for fields_for parse_method str_eq
carried_post c server target path body user other at_path short =
    rw (token_read c user, user_token c.user_id server.admin_token user other, at_path)
      (rw (take-length 511 body short) refl)

-- The status of a transfer that succeeds.
performed_status :
    (gives : ℕ → Bool) (x : Transfer) (b : Buf) (status : ℕ)
    → performed gives x ≡ some (b, status)
    → status ≡ x.status
performed_status gives x b status h = ground arith

performed_fails : (gives : ℕ → Bool) (x : Transfer) → x.succeeds ≡ false → performed gives x ≡ none
performed_fails gives x h = rw h refl

module _ (e : Sqlite) (laws : IsSqlite e) (d after : e.Db) (t : Tables) (fk : Bool) where
  -- The server's work on a request, and what the client makes of the transfer.
  pub posted :
      (status_str : ℕ → Text) (m : Prog Reply) (o : Option Tables) (gives : ℕ → Bool) (x : Transfer)
      → laws.view d ≡ idle t fk
      → Whole status_str (run e m d).0 (run e (sending status_str m) d).0
      → Served o t fk (run e m d).0 (laws.view (run e m d).1)
      → ((x.succeeds ≡ false) × ((after ≡ d) ⊎ (after ≡ (run e (sending status_str m) d).1)))
        ⊎ ((after ≡ (run e (sending status_str m) d).1)
            × ((text : Text) × ((run e (sending status_str m) d).0 ≡ sent text)
                × (status_of text ≡ some (pos x.status))))
      → Told o t fk (status_only (performed gives x)) (laws.view after)
  unfolding status_only
  posted status_str m o gives x start whole served (inl (fails, inl same)) =
      rw (performed_fails gives x fails, same, start) (inl refl)
  posted status_str m o gives x start whole served (inl (fails, inr done)) =
      rw (performed_fails gives x fails, done, run-map e (send_json status_str 512) m d)
        (Served-Told o t fk (run e m d).0 _ served)
  posted status_str m o gives x start whole served (inr (done, (text, out, shown))) =
      let r = (run e m d).0 in
      let sends : sent text ≡ sent (message (status_str r.status) r.body) = sym out ∙ whole.0 in
      let same_text : text ≡ message (status_str r.status) r.body = cc in
      let told : some (pos x.status) ≡ some (pos r.status) =
        sym shown ∙ (ap status_of same_text ∙ whole.1) in
      let same_status : x.status ≡ r.status = cc in
      rw (done, run-map e (send_json status_str 512) m d)
        (status_only-Told o t fk r _ (performed gives x) served whole.2
          λ b status h. performed_status gives x b status h ∙ same_status)
