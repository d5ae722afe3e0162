-- ===== src/Server/Accept.antt =====
-- server/src/server.c: `create_socket`, and `main` after `load_config`. What the calls of the system
-- give is a parameter: `Calls` for one socket, `Startup` for the start, `Poll` for a round of the loop.
pub mod Laws
use sshnack.Base.{ℕ, Bool, true, false, Option, none, some, List, [], ◌∷◌, ◌++◌, if◌then◌else◌, not}
use sshnack.Base.Int.{ℤ, pos, negsuc}

-- The calls of `create_socket` in their order.
pub record Calls : Type 0 where
  pub socket : Option ℕ
  pub setsockopt : Bool
  pub inet_pton : Bool
  pub bind : Bool
  pub listen : Bool

-- The socket, or `none` for -1.
unfoldable pub create_socket : Calls → Option ℕ
create_socket c = elim c.socket [
  | none ↦ none
  | some sock ↦
      if not c.setsockopt
      then none
      else if not c.inet_pton
      then none
      else if not c.bind
      then none
      else if not c.listen
      then none
      else some sock
]

-- `client_t`, but for its server.
pub record Accepted : Type 0 where
  pub sock : ℕ
  pub internal : Bool

-- What a round finds at one of the two sockets: whether POLLIN is set, what `accept` gives, whether
-- `malloc` gives a client, and what `tpool_add_work` returns.
pub record Arrival : Type 0 where
  pub ready : Bool
  pub client_sock : Option ℕ
  pub gives : Bool
  pub added : Bool

-- What has become of the connections: in the pool's work, closed again, or neither.
pub record Fates : Type 0 where
  pub work : List Accepted
  pub closed : List Accepted
  pub lost : List Accepted

-- The body of the `for` loop.
unfoldable pub accept_one : Bool → Arrival → Fates → Fates
accept_one internal a f = if not a.ready then f else elim a.client_sock [
  | none ↦ f
  | some sock ↦
      let client : Accepted = record { sock = sock; internal = internal } in
      if not a.gives
      then record f { closed = f.closed ++ client ∷ [] }
      else if not a.added
      then record f { lost = f.lost ++ client ∷ [] }
      else record f { work = f.work ++ client ∷ [] }
]

-- What `poll` gives in a round: an error, an interrupt among them, or the two sockets.
pub data Poll : Type 0 where
  poll_failed : Poll
  polled : Arrival → Arrival → Poll

-- The loop over the rounds for which `keep_running` is set.
unfoldable pub accept_loop : List Poll → Fates → Fates
unfolding accept_one
accept_loop [] f = f
accept_loop (poll_failed ∷ rounds) f = f
accept_loop (polled public private ∷ rounds) f =
    accept_loop rounds (accept_one true private (accept_one false public f))

-- What the start of the server meets: whether there is a database and a pool, and the two sockets.
pub record Startup : Type 0 where
  pub db : Bool
  pub pool : Bool
  pub public_calls : Calls
  pub internal_calls : Calls

abbrev pub no_fates : Fates
no_fates = record { work = []; closed = []; lost = [] }

abbrev pub both_open : Option ℕ → Option ℕ → Bool
both_open (some a) (some b) = true
both_open _ _ = false

-- `main`: the exit code, and what has become of the connections when the loop ends.
unfoldable pub main : Startup → List Poll → ℤ × Fates
unfolding create_socket accept_loop
main s rounds =
    if not s.db
    then (negsuc 0, no_fates)
    else if not s.pool
    then (negsuc 0, no_fates)
    else if not (both_open (create_socket s.public_calls) (create_socket s.internal_calls))
    then (negsuc 0, no_fates)
    else (pos 0, accept_loop rounds no_fates)
