-- ===== src/Wire/Told.antt =====
-- What the client's result says of the server's tables.
use sshnack.Base.{
  ℕ, ◌≡◌, ◌⊎◌, ◌≤◌, inl, inr, refl, arith, Bool, true, false, Option, none, some, leb,
}
use sshnack.Tables.{Tables}
use sshnack.Sqlite.{View}
use sshnack.Services.Common.{idle}
use sshnack.Handlers.{Reply}
use sshnack.Handlers.Laws.{Served}
use sshnack.App.{Status, api_ok, api_err_network, api_err_http, api_err_parse}
use sshnack.Client.Http.{Buf}
use sshnack.Client.Calls.{status_only}

-- API_OK: what is meant is done. API_ERR_HTTP: nothing has changed. API_ERR_NETWORK: either of them.
abbrev pub Told : Option Tables → Tables → Bool → Status → View → Type 0
Told meant before fk api_ok v = (after : Tables) × (meant ≡ some after) × (v ≡ idle after fk)
Told meant before fk api_err_http v = v ≡ idle before fk
Told meant before fk api_err_network v =
    (v ≡ idle before fk) ⊎ ((after : Tables) × (meant ≡ some after) × (v ≡ idle after fk))
Told meant before fk api_err_parse v = ⊥

-- What was served, whatever the client hears of it.
pub Served-Told :
    (o : Option Tables) (t : Tables) (fk : Bool) (r : Reply) (v : View)
    → Served o t fk r v
    → Told o t fk api_err_network v
Served-Told none t fk r v h = inl h.1
Served-Told (some after) t fk r v (inl h) = inr (after, refl, h.1)
Served-Told (some after) t fk r v (inr h) = inl h.1

Served-ok :
    (o : Option Tables) (t : Tables) (fk : Bool) (r : Reply) (v : View)
    → Served o t fk r v
    → r.status ≡ 200
    → Told o t fk api_ok v
Served-ok none t fk r v h q = absurd (h.0 q)
Served-ok (some after) t fk r v (inl h) q = (after, refl, h.1)
Served-ok (some after) t fk r v (inr h) q = absurd (h.0 q)

Served-refused :
    (o : Option Tables) (t : Tables) (fk : Bool) (r : Reply) (v : View)
    → Served o t fk r v
    → 400 ≤ r.status
    → Told o t fk api_err_http v
Served-refused none t fk r v h q = h.1
Served-refused (some after) t fk r v (inl h) q = absurd (omega (arith, h.0))
Served-refused (some after) t fk r v (inr h) q = h.1

-- The client's result from the status that it gets.
pub status_only-Told :
    (o : Option Tables) (t : Tables) (fk : Bool) (r : Reply) (v : View) (got : Option (Buf × ℕ))
    → Served o t fk r v
    → (r.status ≡ 200) ⊎ (400 ≤ r.status)
    → ((b : Buf) (status : ℕ) → got ≡ some (b, status) → status ≡ r.status)
    → Told o t fk (status_only got) v
unfolding status_only
status_only-Told o t fk r v none h ends same = Served-Told o t fk r v h
status_only-Told o t fk r v (some (b, status)) h ends same =
    let q : status ≡ r.status = same b status refl in
    elim ends [
      | inl ok ↦
          (let low : leb 400 status ≡ false = ground (arith, q, ok) in
            rw low (Served-ok o t fk r v h ok))
      | inr error ↦
          (let high : leb 400 status ≡ true = ground (arith, q, error) in
            rw high (Served-refused o t fk r v h error))
    ]

pub status_only_network : (got : Option (Buf × ℕ)) → status_only got ≡ api_err_network → got ≡ none
unfolding status_only
status_only_network none h = refl
status_only_network (some (b, status)) h = ground arith
