-- ===== src/Network/Invariant.antt =====
-- Every run of a server keeps its objects live.
use mykafka.Prelude.{ℕ, ◌<◌, ◌≡◌, refl, sym, ap, ◌∙◌, subst, some, List, ◌∷◌, ◌++◌, arith}
use mykafka.Broker.State.{Broker}
use mykafka.Network.Requests.{Kind, Response}
use mykafka.Network.Server.{
  process, finish, Service, Operation, Server, new_service, specific_handle, set_finish,
  find_service,
}
use mykafka.Network.Steps.{Call, without, Step, called, sent, lost, Runs, here, begins, next, idle}
use mykafka.Network.Handled.{after_call, handled, handle_event-finish}
use mykafka.Network.Live.{
  IsServed, AllServed, NotIn, Distinct, IsLive, AllServed-split, Distinct-split, NotIn-fresh,
  AllServed-set_finish, AllServed-cons, AllServed-delete_service, find_service-head,
  find_service-set_finish_same,
}

-- The object of an operation, with the other operations, when the operation has ended.
pub record Ends (s : Server) (xs ys : List Operation) (o : Operation) : Type 0 where
  pub this : IsServed s.services s.next_address o
  pub others : AllServed s.services s.next_address (xs ++ ys)
  pub apart : NotIn o.tag (xs ++ ys)
  pub distinct : Distinct (xs ++ ys)

pub IsLive-Ends :
    (s : Server) (xs ys : List Operation) (o : Operation)
    → IsLive s
    → s.pending ≡ xs ++ o ∷ ys
    → Ends s xs ys o
IsLive-Ends s xs ys o live e =
    let (this, others) =
      AllServed-split s.services s.next_address xs ys o
        (subst (AllServed s.services s.next_address) e live.served) in
    let (apart, distinct) = Distinct-split xs ys o (subst Distinct e live.distinct) in
    record { this = this; others = others; apart = apart; distinct = distinct }

new_service-IsLive : (kind : Kind) (s : Server) → IsLive s → IsLive (new_service kind s)
unfolding new_service
new_service-IsLive kind s live =
    let v : Service = record { address = s.next_address; kind = kind; status = process } in
    record {
      served = (
        record {
          service = v;
          found = find_service-head v s.services;
          addressed = refl;
          staged = refl;
          kinded = refl;
          older = omega arith;
        },
        AllServed-cons v s.services s.pending live.served,
      );
      distinct = (NotIn-fresh s.services s.next_address s.pending live.served, live.distinct);
    }

pub specific_handle-IsLive : (s : Server) → IsLive s → IsLive (specific_handle s)
unfolding specific_handle
specific_handle-IsLive s live = new_service-IsLive _ _ (
    new_service-IsLive _ _ (
      new_service-IsLive _ _ (
        new_service-IsLive _ _
          (new_service-IsLive _ _ (new_service-IsLive _ _ (new_service-IsLive _ s live))))))

-- A call: the object of the operation waits for the end of the sending, a new one for a call.
after_call-IsLive :
    (xs ys : List Operation) (o : Operation) (s : Server) (response : Response) (b : Broker)
    (h : Ends s xs ys o)
    → IsLive (after_call h.this.service response b (without xs ys s))
after_call-IsLive xs ys o s response b h =
    let v = h.this.service in
    let older : v.address < s.next_address =
      subst (λ a. a < s.next_address) (sym h.this.addressed) h.this.older in
    let found : find_service v.address s.services ≡ some v =
      ap (λ a. find_service a s.services) h.this.addressed ∙ h.this.found in
    let apart : NotIn v.address (xs ++ ys) =
      subst (λ a. NotIn a (xs ++ ys)) (sym h.this.addressed) h.apart in
    let waiting : Service = record { address = s.next_address; kind = v.kind; status = process } in
    let (finishing, rest) =
      AllServed-cons waiting (set_finish v.address s.services)
        (record { tag = v.address; kind = v.kind; stage = finish } ∷ (xs ++ ys))
        (
          record {
            service = record v { status = finish };
            found = find_service-set_finish_same v.address s.services v found;
            addressed = refl;
            staged = refl;
            kinded = refl;
            older = older;
          },
          AllServed-set_finish s.services s.next_address v.address (xs ++ ys) apart h.others,
        ) in
    record {
      served = (
        finishing,
        (
          record {
            service = waiting;
            found = find_service-head waiting (set_finish v.address s.services);
            addressed = refl;
            staged = refl;
            kinded = refl;
            older = omega arith;
          },
          rest,
        ),
      );
      distinct = (
        ((λ e. absurd (omega (arith, older))), apart),
        (NotIn-fresh s.services s.next_address (xs ++ ys) h.others, h.distinct),
      );
    }

Step-IsLive : {s t : Server} {cs : List Call} → Step s cs t → IsLive s → IsLive t
Step-IsLive {s} {t} (called xs ys o c e staged kinded run) live =
    let h = IsLive-Ends s xs ys o live e in
    let (response, b, told, shape) =
      handled c.env c.now o.tag c.request h.this.service (without xs ys s) t h.this.found
        (h.this.staged ∙ staged) run in
    subst IsLive (sym shape) (after_call-IsLive xs ys o s response b h)
Step-IsLive {s} {t} (sent xs ys o c e staged run) live =
    let h = IsLive-Ends s xs ys o live e in
    let shape =
      ap (λ p. p.1)
        (sym (
            handle_event-finish c.env c.now o.tag c.request h.this.service (without xs ys s)
              h.this.found (h.this.staged ∙ staged))
          ∙ run) in
    subst IsLive shape (record {
      served =
          AllServed-delete_service s.services s.next_address h.this.service.address (xs ++ ys)
            (subst (λ a. NotIn a (xs ++ ys)) (sym h.this.addressed) h.apart) h.others;
      distinct = h.distinct;
    })
Step-IsLive {s} (lost xs ys o e staged) live =
    let h = IsLive-Ends s xs ys o live e in record { served = h.others; distinct = h.distinct }

pub Runs-IsLive : {s t : Server} {n : ℕ} {cs : List Call} → Runs s n cs t → IsLive s → IsLive t
Runs-IsLive here live = live
Runs-IsLive {s} (begins {t} r) live = specific_handle-IsLive t (Runs-IsLive r live)
Runs-IsLive (next r step) live = Step-IsLive step (Runs-IsLive r live)

pub idle-IsLive : (b : Broker) → IsLive (idle b)
idle-IsLive b = record { served = tt; distinct = tt }
