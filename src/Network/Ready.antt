-- ===== src/Network/Ready.antt =====
-- The server is always ready for a call of each kind, once for each thread.
use mykafka.Prelude.{
  ℕ, suc, ◌+◌, ◌<◌, ◌≡◌, refl, sym, ap, ◌∙◌, Bool, true, false, Bool-cases, inl, inr, List, [], ◌∷◌,
  ◌++◌, arith, if◌then◌else◌,
}
use mykafka.Error.{ok}
use mykafka.Broker.State.{Broker}
use mykafka.Network.Requests.{
  Kind, sends, fetches, asks_offsets, asks_info, creates, deletes, deletes_topic, Response, kind_of,
  same_kind, serve,
}
use mykafka.Network.Server.{
  CallStatus, process, finish, Operation, Server, new_service, specific_handle,
}
use mykafka.Network.Steps.{Call, without, Step, called, sent, lost, Runs, here, begins, next, idle}
use mykafka.Network.Handled.{after_call, handled, handle_event-answers, handle_event-finish}
use mykafka.Network.Live.{IsLive}
use mykafka.Network.Invariant.{IsLive-Ends, Runs-IsLive, idle-IsLive}

-- Is the operation the wait for a call of the kind?
abbrev pub waits : Kind → CallStatus → Kind → Bool
waits k process kind = same_kind k kind
waits k finish kind = false

-- How many calls of the kind could be taken at once.
abbrev pub waiting : Kind → List Operation → ℕ
waiting k [] = 0
waiting k (o ∷ os) = (if waits k o.stage o.kind then 1 else 0) + waiting k os

waiting-split :
    (k : Kind) (xs ys : List Operation) (o : Operation)
    → waiting k (xs ++ o ∷ ys) ≡ (if waits k o.stage o.kind then 1 else 0) + waiting k (xs ++ ys)
waiting-split k [] ys o = refl
waiting-split k (x ∷ xs) ys o = omega (arith, waiting-split k xs ys o)

same_kind-eq : (k j : Kind) → same_kind k j ≡ true → j ≡ k
same_kind-eq sends sends h = refl
same_kind-eq fetches fetches h = refl
same_kind-eq asks_offsets asks_offsets h = refl
same_kind-eq asks_info asks_info h = refl
same_kind-eq creates creates h = refl
same_kind-eq deletes deletes h = refl
same_kind-eq deletes_topic deletes_topic h = refl
same_kind-eq _ _ h = cc

waits-eq :
    (k : Kind) (stage : CallStatus) (kind : Kind)
    → waits k stage kind ≡ true
    → (stage ≡ process) × (kind ≡ k)
waits-eq k process kind h = (refl, same_kind-eq k kind h)
waits-eq k finish kind h = cc

-- An operation that waits for a call of the kind.
pub record Waits (k : Kind) (os : List Operation) : Type 0 where
  pub before : List Operation
  pub behind : List Operation
  pub operation : Operation
  pub place : os ≡ before ++ operation ∷ behind
  pub staged : operation.stage ≡ process
  pub kinded : operation.kind ≡ k

waiting-Waits : (k : Kind) (os : List Operation) → 0 < waiting k os → Waits k os
waiting-Waits k [] h = absurd (omega arith)
waiting-Waits k (o ∷ os) h = elim (Bool-cases (waits k o.stage o.kind)) [
  | inl this ↦ record {
    before = [];
    behind = os;
    operation = o;
    place = refl;
    staged = (waits-eq k o.stage o.kind this).0;
    kinded = (waits-eq k o.stage o.kind this).1;
  }
  | inr other ↦
      let w = waiting-Waits k os (ground arith) in
      record {
        before = o ∷ w.before;
        behind = w.behind;
        operation = w.operation;
        place = ap (λ l. o ∷ l) w.place;
        staged = w.staged;
        kinded = w.kinded;
      }
]

-- The end of a sending, and the place of a call that another wait takes.
waiting-done :
    (k : Kind) (xs ys : List Operation) (o : Operation)
    → o.stage ≡ finish
    → waiting k (xs ++ o ∷ ys) ≡ waiting k (xs ++ ys)
waiting-done k xs ys o e = waiting-split k xs ys o ∙ rw e (omega arith)

waiting-replaced :
    (k : Kind) (xs ys : List Operation) (o : Operation) (kind : Kind)
    → o.stage ≡ process
    → kind ≡ o.kind
    → 0 + ((if same_kind k kind then 1 else 0) + waiting k (xs ++ ys)) ≡ waiting k (xs ++ o ∷ ys)
waiting-replaced k xs ys o kind e same = sym (waiting-split k xs ys o ∙ rw (e, same) (omega arith))

waiting-specific_handle :
    (k : Kind) (s : Server) → waiting k (specific_handle s).pending ≡ suc (waiting k s.pending)
unfolding specific_handle new_service
waiting-specific_handle sends s = omega arith
waiting-specific_handle fetches s = omega arith
waiting-specific_handle asks_offsets s = omega arith
waiting-specific_handle asks_info s = omega arith
waiting-specific_handle creates s = omega arith
waiting-specific_handle deletes s = omega arith
waiting-specific_handle deletes_topic s = omega arith

Step-waiting :
    {s t : Server} {cs : List Call} (k : Kind)
    → Step s cs t
    → IsLive s
    → waiting k t.pending ≡ waiting k s.pending
Step-waiting {s} {t} k (called xs ys o c e staged kinded run) live =
    let h = IsLive-Ends s xs ys o live e in
    let (response, b, told, shape) =
      handled c.env c.now o.tag c.request h.this.service (without xs ys s) t h.this.found
        (h.this.staged ∙ staged) run in
    rw shape (rw e (waiting-replaced k xs ys o h.this.service.kind staged h.this.kinded))
Step-waiting {s} {t} k (sent xs ys o c e staged run) live =
    let h = IsLive-Ends s xs ys o live e in
    let shape =
      ap (λ p. p.1)
        (sym (
            handle_event-finish c.env c.now o.tag c.request h.this.service (without xs ys s)
              h.this.found (h.this.staged ∙ staged))
          ∙ run) in
    rw (← shape) (rw e (sym (waiting-done k xs ys o staged)))
Step-waiting {s} k (lost xs ys o e staged) live = rw e (sym (waiting-done k xs ys o staged))

-- In each run of the server, as many calls of each kind can be taken at once as threads have
-- begun.
pub waiting_for_all :
    (b : Broker) (t : Server) (n : ℕ) (cs : List Call) (k : Kind)
    → Runs (idle b) n cs t
    → waiting k t.pending ≡ n
waiting_for_all b t n cs k here = refl
waiting_for_all b t n cs k (begins {t = m} {n = i} r) =
    waiting-specific_handle k m ∙ ap suc (waiting_for_all b m i cs k r)
waiting_for_all b t n cs k (next {t = m} {cs = ds} r step) =
    Step-waiting k step (Runs-IsLive r (idle-IsLive b)) ∙ waiting_for_all b m n ds k r

-- In each run of the server with at least one thread, whatever is under way, a call that the
-- broker answers can be taken at once, and the server then hands this answer to gRPC.
pub call_taken :
    (b : Broker) (t : Server) (n : ℕ) (cs : List Call) (c : Call) (response : Response)
    (b' : Broker)
    → Runs (idle b) n cs t
    → 0 < n
    → serve c.env c.now c.request t.broker ≡ (ok response, b')
    → (u : Server) × Step t (c ∷ []) u × (u.broker ≡ b') × (u.finished ≡ response ∷ t.finished)
call_taken b t n cs c response b' r some_thread e =
    let k = kind_of c.request in
    let w = waiting-Waits k t.pending (omega (arith, waiting_for_all b t n cs k r)) in
    let rest = without w.before w.behind t in
    let h = IsLive-Ends t w.before w.behind w.operation (Runs-IsLive r (idle-IsLive b)) w.place in
    (
      after_call h.this.service response b' rest,
      called w.before w.behind w.operation c w.place w.staged (sym w.kinded) (
          handle_event-answers c.env c.now w.operation.tag c.request h.this.service rest
            h.this.found (h.this.staged ∙ w.staged) e),
      refl,
      refl,
    )
