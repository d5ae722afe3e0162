-- ===== src/Handlers/Lookup.antt =====
-- The handler of the lookup of users: the fingerprint that it reads, and what it answers.
use sshnack.Base.{
  ℕ, ◌≡◌, ◌≢◌, ◌≤◌, ◌⊎◌, refl, Bool, none, some, [], ◌∷◌, ◌++◌, arith, length, All, Option,
}
use sshnack.Base.Int.{ℤ}
use sshnack.Base.Text.{Text, codes}
use sshnack.Base.Number.{strip_prefix, skip_spaces}
use sshnack.Tables.{Tables}
use sshnack.Sqlite.{View, Sqlite}
use sshnack.Services.Common.{idle}
use sshnack.Services.Users.Laws.{enrolled}
use sshnack.Handlers.{Reply, json, number_body, take_quoted, scan_fingerprint}

take_quoted-All :
    (n : ℕ) (s rest : Text)
    → length s ≤ n
    → All (λ c. c ≢ b'"') s
    → take_quoted n (s ++ b'"' ∷ rest) ≡ s
unfolding take_quoted
take_quoted-All ℕ.zero [] rest h q = refl
take_quoted-All (ℕ.suc n) [] rest h q = refl
take_quoted-All ℕ.zero (c ∷ s) rest h q = ground arith
take_quoted-All (ℕ.suc n) (c ∷ s) rest h q =
    ground (arith, take_quoted-All n s rest (omega arith) q.1)

-- From the body {"fingerprint": "<fp>"}, which the ssh entry sends, the handler reads the fingerprint,
-- if that is not empty, has at most 127 bytes and no quote among them.
pub scan_fingerprint_lem :
    (fp : Text)
    → fp ≢ []
    → length fp ≤ 127
    → All (λ c. c ≢ b'"') fp
    → scan_fingerprint (codes "{\"fingerprint\": \"" ++ fp ++ codes "\"}") ≡ some fp
unfolding scan_fingerprint strip_prefix skip_spaces
scan_fingerprint_lem [] n h q = absurd (n refl)
scan_fingerprint_lem (c ∷ fp) n h q = rw (take_quoted-All 127 (c ∷ fp) (codes "}") h q) refl

-- How a lookup with a fingerprint ends: with 200, the user's number, and tables in which the
-- fingerprint has it, or with 500 and the tables as they were.
abbrev pub LookedUp : ℤ × Tables → Tables → Bool → Reply → View → Type 0
LookedUp (uid, after) before fk r v =
    ((r ≡ json 200 (number_body (codes "{\"user_id\":") uid)) × (v ≡ idle after fk))
    ⊎ ((r.status ≡ 500) × (v ≡ idle before fk))

abbrev pub LookupAnswered : Option Text → Tables → Bool → Reply → View → Type 0
LookupAnswered none before fk r v = (r.status ≡ 400) × (v ≡ idle before fk)
LookupAnswered (some fp) before fk r v = LookedUp (enrolled fp before) before fk r v
