-- ===== src/Server/Accept/Laws.antt =====
-- Every connection that the loop of `main` accepts is handed to the pool, closed or lost as its calls
-- say.
use sshnack.Base.{
  append_assoc, append-nil, ap, sym, not, ◌&&◌, ◌≡◌, ◌∙◌, arith, Bool, true, false, none, some,
  List, [], ◌∷◌, ◌++◌, if◌then◌else◌, Option-cases, inl, inr,
}
use sshnack.Base.Int.{pos}
use sshnack.Server.Accept.{
  Accepted, Arrival, Fates, accept_one, Poll, poll_failed, polled, accept_loop, Startup, main,
  no_fates,
}

-- The connection that `accept` gives at a socket.
abbrev arrived : Bool → Arrival → List Accepted
arrived internal a =
    if a.ready
    then elim a.client_sock [
      | none ↦ []
      | some sock ↦ record { sock = sock; internal = internal } ∷ []
    ]
    else []

-- The connections that `accept` gives until `poll` fails, of those arrivals that meet a test; in
-- each round the public socket comes first.
unfoldable pub clients_of : (Arrival → Bool) → List Poll → List Accepted
clients_of q [] = []
clients_of q (poll_failed ∷ rounds) = []
clients_of q (polled public private ∷ rounds) =
    (if q public then arrived false public else [])
    ++ ((if q private then arrived true private else []) ++ clients_of q rounds)

-- The client is given and the pool takes it; no client is given; the pool does not take it.
abbrev pub queued : Arrival → Bool
queued a = a.gives && a.added

abbrev pub refused : Arrival → Bool
refused a = not a.gives

abbrev pub dropped : Arrival → Bool
dropped a = a.gives && not a.added

abbrev one_of : (Arrival → Bool) → Bool → Arrival → List Accepted
one_of q internal a = if q a then arrived internal a else []

accept_one_lem :
    (internal : Bool) (a : Arrival) (f : Fates)
    → let g = accept_one internal a f in
      (g.work ≡ f.work ++ one_of queued internal a)
      × (g.closed ≡ f.closed ++ one_of refused internal a)
      × (g.lost ≡ f.lost ++ one_of dropped internal a)
unfolding accept_one
accept_one_lem internal a f = elim (Option-cases a.client_sock) [
  | inl e ↦ rw e (ground (arith, append-nil f.work, append-nil f.closed, append-nil f.lost))
  | inr (sock, e) ↦ rw e (ground (arith, append-nil f.work, append-nil f.closed, append-nil f.lost))
]

-- Two arrivals of a round and the rounds after it, at one of the three lists.
joined :
    {A : Type 0} (before xs ys zs : List A) {first second after : List A}
    → first ≡ before ++ xs
    → second ≡ first ++ ys
    → after ≡ second ++ zs
    → after ≡ before ++ (xs ++ (ys ++ zs))
joined before xs ys zs a b c =
    c
    ∙ (ap (λ l. l ++ zs) (b ∙ ap (λ l. l ++ ys) a)
        ∙ (append_assoc (before ++ xs) ys zs ∙ append_assoc before xs (ys ++ zs)))

accept_loop_lem :
    (rounds : List Poll) (f : Fates)
    → let g = accept_loop rounds f in
      (g.work ≡ f.work ++ clients_of queued rounds)
      × (g.closed ≡ f.closed ++ clients_of refused rounds)
      × (g.lost ≡ f.lost ++ clients_of dropped rounds)
unfolding accept_loop clients_of
accept_loop_lem [] f = (sym (append-nil f.work), sym (append-nil f.closed), sym (append-nil f.lost))
accept_loop_lem (poll_failed ∷ rounds) f =
    (sym (append-nil f.work), sym (append-nil f.closed), sym (append-nil f.lost))
accept_loop_lem (polled public private ∷ rounds) f =
    let first = accept_one false public f in
    let (w, c, l) = accept_one_lem false public f in
    let (w', c', l') = accept_one_lem true private first in
    let (w'', c'', l'') = accept_loop_lem rounds (accept_one true private first) in
    (joined f.work _ _ _ w w' w'', joined f.closed _ _ _ c c' c'', joined f.lost _ _ _ l l' l'')

main_started :
    (s : Startup) (rounds : List Poll)
    → (main s rounds).0 ≡ pos 0
    → (main s rounds).1 ≡ accept_loop rounds no_fates
unfolding main
main_started s rounds h = ground arith

-- Whatever `poll`, `accept`, `malloc` and `tpool_add_work` give, once the server has started: of the
-- connections that `accept` gives until `poll` fails, those with a client that the pool takes are in
-- its work, those for which `malloc` gives no client are closed, and those whose client the pool does
-- not take are neither in its work nor closed; each list in the order of the arrivals, the public
-- socket first in a round, and with the mark of the socket that the connection came from.
pub main_accounts :
    (s : Startup) (rounds : List Poll)
    → (main s rounds).0 ≡ pos 0
    → ((main s rounds).1.work ≡ clients_of queued rounds)
      × ((main s rounds).1.closed ≡ clients_of refused rounds)
      × ((main s rounds).1.lost ≡ clients_of dropped rounds)
main_accounts s rounds h = rw (main_started s rounds h) (accept_loop_lem rounds no_fates)
