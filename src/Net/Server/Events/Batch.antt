-- ===== src/Net/Server/Events/Batch.antt =====
-- A call of qc_epoll_process_events with several events.
use quick_comm.Base.{
  ℕ, ◌≡◌, ◌≢◌, refl, ap, ◌∙◌, Bool, false, ◌⊎◌, inl, inr, List, [], ◌∷◌, Option, some, All, All-map,
  ◌>>=◌, if◌then◌else◌,
}
use quick_comm.Base.Int.{ℤ}
use quick_comm.Net.Pool.{event_accept, read_request, write_request}
use quick_comm.Net.Pool.Owners.{InUse}
use quick_comm.Net.Server.{Server, conn_at, epollout}
use quick_comm.Net.Server.Close.{IsValid}
use quick_comm.Net.Server.Events.{
  has, process_event, Event, events_loop, Waited, wait_failed, events, waits_forever,
  process_events,
}
use quick_comm.Net.Server.Events.Others.{Keeps}
use quick_comm.Net.Server.Events.Valid.{EndsValid, client_event-EndsValid, listener_event-EndsValid}

-- The event is of a connection in use that has the handlers of a client, or those of a listening
-- socket, which is not watched for EPOLLOUT.
abbrev pub IsWatched : Server → Event → Type 0
IsWatched s e =
    InUse e.conn s.pool
    × ((((conn_at e.conn s).rhandler ≡ some read_request)
          × ((conn_at e.conn s).whandler ≡ some write_request))
        ⊎ ((has e.revents epollout ≡ false) × ((conn_at e.conn s).rhandler ≡ some event_accept)))

-- Each connection has one event at most.
abbrev pub AreApart : List Event → Type 0
AreApart [] = Unit {0}
AreApart (e ∷ es) = All (λ (d : Event). d.conn ≢ e.conn) es × AreApart es

pub event-EndsValid :
    (e : Event) (flag : Bool) (s : Server)
    → IsValid s
    → IsWatched s e
    → EndsValid e.conn s (process_event e.answers e.conn e.revents (flag, s))
event-EndsValid e flag s v (u, inl (r, w)) =
    client_event-EndsValid e.answers e.conn e.revents flag s v u r w
event-EndsValid e flag s v (u, inr (out, r)) =
    listener_event-EndsValid e.answers e.conn e.revents flag s v out r

still-IsWatched :
    (a : ℕ) (s s' : Server)
    → Keeps a s s'
    → (e : Event) → e.conn ≢ a
    → IsWatched s e
    → IsWatched s' e
still-IsWatched a s s' k e n (u, inl (r, w)) =
    let (i, same) = k e.conn n u in
    (i, inl (ap (λ c. c.rhandler) same ∙ r, ap (λ c. c.whandler) same ∙ w))
still-IsWatched a s s' k e n (u, inr (out, r)) =
    let (i, same) = k e.conn n u in (i, inr (out, ap (λ c. c.rhandler) same ∙ r))

both :
    (s : Server) (a : ℕ) (es : List Event)
    → All (λ (d : Event). d.conn ≢ a) es
    → All (IsWatched s) es
    → All (λ (d : Event). (d.conn ≢ a) × IsWatched s d) es
both s a [] n w = tt
both s a (e ∷ es) (n, ns) (w, ws) = ((n, w), both s a es ns ws)

-- The rounds end with a valid server.
abbrev LoopsValid : Option (Bool × Server) → Type 0
LoopsValid result = (after : Bool × Server) × (result ≡ some after) × IsValid after.1

events_loop-LoopsValid :
    (es : List Event) (flag : Bool) (s : Server)
    → IsValid s
    → All (IsWatched s) es
    → AreApart es
    → LoopsValid (events_loop es (flag, s))
unfolding events_loop
events_loop-LoopsValid [] flag s v w apart = ((flag, s), refl, v)
events_loop-LoopsValid (e ∷ es) flag s v (w, ws) (n, apart) =
    let (next, eq, v', k) = event-EndsValid e flag s v w in
    let ws' : All (IsWatched next.1) es =
      All-map (λ (d : Event). (d.conn ≢ e.conn) × IsWatched s d) (IsWatched next.1)
        (λ d h. still-IsWatched e.conn s next.1 k d h.0 h.1) es (both s e.conn es n ws) in
    let (after, eq', v'') = events_loop-LoopsValid es next.0 next.1 v' ws' apart in
    (after, ap (λ o. o >>= λ x. events_loop es x) eq ∙ eq', v'')

-- The events that epoll_wait() answers
abbrev pub events_of : Waited → List Event
events_of (wait_failed signal) = []
events_of (events es) = es

-- What a call returns: 0 when epoll_wait() fails otherwise than by a signal, or answers no event
-- to a wait without an end; else 1.
abbrev pub returned : ℤ → Waited → ℕ
returned timer (wait_failed signal) = if signal then 1 else 0
returned timer (events []) = if waits_forever timer then 0 else 1
returned timer (events (e ∷ es)) = 1

-- On a valid server, a call of qc_epoll_process_events whose events are of different connections
-- in use, each with the handlers of a client or of a listening socket, makes no call through a
-- null pointer, leaves a valid server, and returns 0 exactly when epoll_wait() fails otherwise
-- than by a signal or gives no event to a wait without an end.
pub process_events-Handled :
    (timer : ℤ) (w : Waited) (flag : Bool) (s : Server)
    → IsValid s
    → All (IsWatched s) (events_of w)
    → AreApart (events_of w)
    → (after : Bool × Server) × (process_events timer w (flag, s)
        ≡ some (returned timer w, after.0, after.1))
      × IsValid after.1
unfolding process_events
process_events-Handled timer (wait_failed signal) flag s v ws apart = ((flag, s), refl, v)
process_events-Handled timer (events []) flag s v ws apart = ((flag, s), refl, v)
process_events-Handled timer (events (e ∷ es)) flag s v ws apart =
    let (after, eq, v') = events_loop-LoopsValid (e ∷ es) flag s v ws apart in
    (after, ap (λ o. o >>= λ x. some (1, x.0, x.1)) eq, v')
