-- ===== src/Network/Live.antt =====
-- The objects that gRPC still knows by their addresses are live.
use mykafka.Prelude.{ℕ, suc, ◌<◌, ◌≡◌, ◌≢◌, refl, sym, ◌∙◌, List, [], ◌∷◌, ◌++◌, some, arith}
use mykafka.Network.Server.{
  finish, Service, Operation, Server, find_service, set_finish, delete_service,
}

-- The object of an operation is live, in the stage of the operation, and older than the next one.
pub record IsServed (services : List Service) (next_address : ℕ) (o : Operation) : Type 0 where
  pub service : Service
  pub found : find_service o.tag services ≡ some service
  pub addressed : service.address ≡ o.tag
  pub staged : service.status ≡ o.stage
  pub kinded : service.kind ≡ o.kind
  pub older : o.tag < next_address

abbrev pub AllServed : List Service → ℕ → List Operation → Type 0
AllServed services n [] = Unit {0}
AllServed services n (o ∷ os) = IsServed services n o × AllServed services n os

abbrev pub NotIn : ℕ → List Operation → Type 0
NotIn a [] = Unit {0}
NotIn a (o ∷ os) = (o.tag ≢ a) × NotIn a os

-- No object has two operations under way.
abbrev pub Distinct : List Operation → Type 0
Distinct [] = Unit {0}
Distinct (o ∷ os) = NotIn o.tag os × Distinct os

pub record IsLive (s : Server) : Type 0 where
  pub served : AllServed s.services s.next_address s.pending
  pub distinct : Distinct s.pending

-- Taking an operation out of the list.
pub AllServed-split :
    (services : List Service) (n : ℕ) (xs ys : List Operation) (o : Operation)
    → AllServed services n (xs ++ o ∷ ys)
    → IsServed services n o × AllServed services n (xs ++ ys)
AllServed-split services n [] ys o (h, all) = (h, all)
AllServed-split services n (x ∷ xs) ys o (h, all) =
    let (this, rest) = AllServed-split services n xs ys o all in (this, (h, rest))

pub NotIn-split :
    (a : ℕ) (xs ys : List Operation) (o : Operation)
    → NotIn a (xs ++ o ∷ ys)
    → (o.tag ≢ a) × NotIn a (xs ++ ys)
NotIn-split a [] ys o (h, all) = (h, all)
NotIn-split a (x ∷ xs) ys o (h, all) =
    let (this, rest) = NotIn-split a xs ys o all in (this, (h, rest))

pub Distinct-split :
    (xs ys : List Operation) (o : Operation)
    → Distinct (xs ++ o ∷ ys)
    → NotIn o.tag (xs ++ ys) × Distinct (xs ++ ys)
Distinct-split [] ys o (h, all) = (h, all)
Distinct-split (x ∷ xs) ys o (h, all) =
    let (this, rest) = Distinct-split xs ys o all in
    let (apart, others) = NotIn-split x.tag xs ys o h in
    (((λ e. apart (sym e)), this), (others, rest))

-- What an object found by its address is after its neighbours have changed.
find_service-set_finish :
    (a b : ℕ) (services : List Service)
    → b ≢ a
    → find_service b (set_finish a services) ≡ find_service b services
unfolding find_service set_finish
find_service-set_finish a b [] ne = refl
find_service-set_finish a b (v ∷ services) ne =
    ground (arith, find_service-set_finish a b services ne)

pub find_service-set_finish_same :
    (a : ℕ) (services : List Service) (v : Service)
    → find_service a services ≡ some v
    → find_service a (set_finish a services) ≡ some (record v { status = finish })
unfolding find_service set_finish
find_service-set_finish_same a [] v e = absurd (ground arith)
find_service-set_finish_same a (w ∷ services) v e =
    ground (arith, find_service-set_finish_same a services v)

find_service-delete_service :
    (a b : ℕ) (services : List Service)
    → b ≢ a
    → find_service b (delete_service a services) ≡ find_service b services
unfolding find_service delete_service
find_service-delete_service a b [] ne = refl
find_service-delete_service a b (v ∷ services) ne =
    ground (arith, find_service-delete_service a b services ne)

pub find_service-cons :
    (v : Service) (b : ℕ) (services : List Service)
    → b < v.address
    → find_service b (v ∷ services) ≡ find_service b services
unfolding find_service
find_service-cons v b services lt = ground arith

pub find_service-head :
    (v : Service) (services : List Service) → find_service v.address (v ∷ services) ≡ some v
unfolding find_service
find_service-head v services = ground arith

-- The next address is in no operation.
pub NotIn-fresh :
    (services : List Service) (n : ℕ) (os : List Operation) → AllServed services n os → NotIn n os
NotIn-fresh services n [] all = tt
NotIn-fresh services n (o ∷ os) (h, all) =
    ((λ e. absurd (omega (arith, h.older))), NotIn-fresh services n os all)

-- What the other operations keep when an object changes its stage, comes or goes.
pub AllServed-set_finish :
    (services : List Service) (n a : ℕ) (os : List Operation)
    → NotIn a os
    → AllServed services n os
    → AllServed (set_finish a services) n os
AllServed-set_finish services n a [] apart all = tt
AllServed-set_finish services n a (o ∷ os) (ne, apart) (h, all) = (
  record {
    service = h.service;
    found = find_service-set_finish a o.tag services ne ∙ h.found;
    addressed = h.addressed;
    staged = h.staged;
    kinded = h.kinded;
    older = h.older;
  },
  AllServed-set_finish services n a os apart all,
)

pub AllServed-cons :
    (v : Service) (services : List Service) (os : List Operation)
    → AllServed services v.address os
    → AllServed (v ∷ services) (suc v.address) os
AllServed-cons v services [] all = tt
AllServed-cons v services (o ∷ os) (h, all) = (
  record {
    service = h.service;
    found = find_service-cons v o.tag services h.older ∙ h.found;
    addressed = h.addressed;
    staged = h.staged;
    kinded = h.kinded;
    older = omega (arith, h.older);
  },
  AllServed-cons v services os all,
)

pub AllServed-delete_service :
    (services : List Service) (n a : ℕ) (os : List Operation)
    → NotIn a os
    → AllServed services n os
    → AllServed (delete_service a services) n os
AllServed-delete_service services n a [] apart all = tt
AllServed-delete_service services n a (o ∷ os) (ne, apart) (h, all) = (
  record {
    service = h.service;
    found = find_service-delete_service a o.tag services ne ∙ h.found;
    addressed = h.addressed;
    staged = h.staged;
    kinded = h.kinded;
    older = h.older;
  },
  AllServed-delete_service services n a os apart all,
)
