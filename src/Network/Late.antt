-- ===== src/Network/Late.antt =====
-- A network that may serve a call late: one that has ended with an error, of a lost answer or a
-- deadline, is under way until it is served or given up, and later calls may overtake it.
use mykafka.Prelude.{
  ℕ, suc, ◌+◌, ◌*◌, ◌≤◌, ◌<◌, ◌^◌, ◌≡◌, refl, sym, ap, ◌∙◌, subst, ◌⊎◌, inl, inr, List, [], ◌∷◌,
  ◌++◌, append_assoc, append-nil, Option, arith, length, length-append,
}
use mykafka.Prelude.Int.{ℤ}
use mykafka.Error.{ok}
use mykafka.Env.{calm}
use mykafka.Index.Opening.{default_entries}
use mykafka.Segment.Layout.{Payload}
use mykafka.Partition.Steady.{Room}
use mykafka.Config.Keys.{Key}
use mykafka.Broker.State.{Broker}
use mykafka.Broker.Log.{IsLog}
use mykafka.Network.Requests.{Request, send, Response, serve}
use mykafka.Network.Client.{good, bad, Reply, response, Answer, Link}
use mykafka.Network.Delivers.{served-IsLog}

-- Some of the calls under way are served, in any order, or given up.
pub data Late : Broker → List Request → Broker → List Request → Type 0 where
  no_more : {b : Broker} {qs : List Request} → Late b qs b qs
  served :
      {b b' b'' : Broker} {qs rest : List Request} (xs ys : List Request) (q : Request) (now : ℤ)
      (told : Response)
      → qs ≡ xs ++ q ∷ ys
      → serve calm now q b ≡ (ok told, b')
      → Late b' (xs ++ ys) b'' rest
      → Late b qs b'' rest
  given_up :
      {b b' : Broker} {qs rest : List Request} (xs ys : List Request) (q : Request)
      → qs ≡ xs ++ q ∷ ys
      → Late b (xs ++ ys) b' rest
      → Late b qs b' rest

-- The end of a call: it was served once if the status is good, with others before and behind; else
-- it is one of those under way.
pub data Ended {W : Type 0} (broker : W → Broker) (owed : W → List Request) (q : Request) (w : W)
    : Answer W q → Type 0 where
  answered :
      {r : Reply q} {w' : W} {b b' : Broker} {qs : List Request} (now : ℤ)
      → Late (broker w) (owed w) b qs
      → serve calm now q b ≡ (ok (response q r), b')
      → Late b' qs (broker w') (owed w')
      → Ended broker owed q w (good, r, w')
  failed :
      {code : ℕ} {r : Reply q} {w' : W}
      → Late (broker w) (q ∷ owed w) (broker w') (owed w')
      → Ended broker owed q w (bad code, r, w')

-- The broker in a world, which no one else calls, and the calls under way.
pub record Delivers {W : Type 0} (broker : W → Broker) (owed : W → List Request) (link : Link W)
    : Type 0 where
  pub calls :
      (deadline : Option ℤ) (q : Request) (r : Reply q) (w : W)
      → Ended broker owed q w (link.call deadline q r w)
  pub waits :
      (timeout : ℤ) (w : W)
      → Late
          (broker w)
          (owed w)
          (broker (link.wait_for_connected timeout w).1)
          (owed (link.wait_for_connected timeout w).1)

abbrev pub In : Payload → List Payload → Type 0
In x [] = ⊥
In x (y ∷ ys) = (x ≡ y) ⊎ In x ys

abbrev pub AllIn : List Payload → List Payload → Type 0
AllIn seen [] = Unit {0}
AllIn seen (x ∷ xs) = In x seen × AllIn seen xs

-- The calls under way send some of these messages.
abbrev pub Owes : Key → List Payload → List Request → Type 0
Owes key seen [] = Unit {0}
Owes key seen (q ∷ qs) = ((x : Payload) × (q ≡ send key x) × In x seen) × Owes key seen qs

abbrev pub Sizes : ℕ → List Payload → Type 0
Sizes m [] = Unit {0}
Sizes m (x ∷ xs) = (m + 12 + length x < 2 ^ 31) × Sizes m xs

-- Messages of which `bound` fit a log.
pub record Fit (m bound : ℕ) (seen : List Payload) : Type 0 where
  pub sizes : Sizes m seen
  pub entries : m < 12 * default_entries
  pub offsets : bound < 2 ^ 63

pub AllIn-append :
    (seen xs ys : List Payload) → AllIn seen xs → AllIn seen ys → AllIn seen (xs ++ ys)
AllIn-append seen [] ys hx hy = hy
AllIn-append seen (x ∷ xs) ys (h, hx) hy = (h, AllIn-append seen xs ys hx hy)

Sizes-In :
    (m : ℕ) (seen : List Payload) (x : Payload)
    → Sizes m seen
    → In x seen
    → m + 12 + length x < 2 ^ 31
Sizes-In m [] x sizes h = absurd h
Sizes-In m (y ∷ ys) x (size, sizes) (inl e) = subst (λ z. m + 12 + length z < 2 ^ 31) (sym e) size
Sizes-In m (y ∷ ys) x (size, sizes) (inr h) = Sizes-In m ys x sizes h

pub Fit-Room :
    (m bound n : ℕ) (seen : List Payload) (x : Payload)
    → Fit m bound seen
    → In x seen
    → n + 1 ≤ bound
    → Room m n x
Fit-Room m bound n seen x fit h le = record {
  bytes = Sizes-In m seen x fit.sizes h;
  entries = fit.entries;
  offsets = omega (arith, fit.offsets);
}

Owes-middle :
    (key : Key) (seen : List Payload) (xs ys : List Request) (q : Request)
    → Owes key seen (xs ++ q ∷ ys)
    → ((x : Payload) × (q ≡ send key x) × In x seen) × Owes key seen (xs ++ ys)
Owes-middle key seen [] ys q (h, hs) = (h, hs)
Owes-middle key seen (p ∷ xs) ys q (h, hs) =
    let (this, rest) = Owes-middle key seen xs ys q hs in (this, (h, rest))

length-middle :
    (xs ys : List Request) (q : Request) → length (xs ++ q ∷ ys) ≡ suc (length (xs ++ ys))
length-middle [] ys q = refl
length-middle (p ∷ xs) ys q = ap suc (length-middle xs ys q)

module _ (key : Key) (m : ℕ) (seen : List Payload) where
  -- The log behind calls that were served, of `n` that were under way.
  pub record Grown (ms : List Payload) (n : ℕ) (b : Broker) (qs : List Request) : Type 0 where
    pub more : List Payload
    pub known : AllIn seen more
    pub log : IsLog key m (ms ++ more) b
    pub owes : Owes key seen qs
    pub count : length more + length qs ≤ n

  Grown-cons :
      (ms : List Payload) (x : Payload) (n : ℕ) (b : Broker) (qs : List Request)
      → In x seen
      → Grown (ms ++ x ∷ []) n b qs
      → Grown ms (suc n) b qs
  Grown-cons ms x n b qs h g = record {
    more = x ∷ g.more;
    known = (h, g.known);
    log = subst (λ l. IsLog key m l b) (append_assoc ms (x ∷ []) g.more) g.log;
    owes = g.owes;
    count = omega (arith, g.count);
  }

  Grown-le :
      (ms : List Payload) (k n : ℕ) (b : Broker) (qs : List Request)
      → k ≤ n
      → Grown ms k b qs
      → Grown ms n b qs
  Grown-le ms k n b qs le g = record {
    more = g.more;
    known = g.known;
    log = g.log;
    owes = g.owes;
    count = omega (arith, g.count);
  }

  pub Late-Grown :
      {b b' : Broker} {qs qs' : List Request}
      → Late b qs b' qs'
      → (bound : ℕ) → Fit m bound seen
      → (ms : List Payload) → IsLog key m ms b
      → Owes key seen qs
      → length ms + length qs ≤ bound
      → Grown ms (length qs) b' qs'
  Late-Grown {b = b} no_more bound fit ms h owes le = record {
    more = [];
    known = tt;
    log = subst (λ l. IsLog key m l b) (sym (append-nil ms)) h;
    owes = owes;
    count = omega arith;
  }
  Late-Grown (served {b = b} {b' = b1} xs ys q now told e run late) bound fit ms h owes le =
      let ((x, same, known), rest) = Owes-middle key seen xs ys q (subst (Owes key seen) e owes) in
      let n = ap length e ∙ length-middle xs ys q in
      let (log, _) =
        served-IsLog key m x ms b b1 now told h
          (Fit-Room m bound (length ms) seen x fit known (omega (arith, n, le)))
          (ap (λ p. serve calm now p b) (sym same) ∙ run) in
      Grown-le ms (suc (length (xs ++ ys))) _ _ _ (omega (arith, n)) (
        Grown-cons ms x (length (xs ++ ys)) _ _ known (
          Late-Grown late bound fit (ms ++ x ∷ []) log rest
            (omega (arith, n, le, length-append ms (x ∷ [])))))
  Late-Grown (given_up xs ys q e late) bound fit ms h owes le =
      let (_, rest) = Owes-middle key seen xs ys q (subst (Owes key seen) e owes) in
      let n = ap length e ∙ length-middle xs ys q in
      Grown-le ms (length (xs ++ ys)) _ _ _ (omega (arith, n))
        (Late-Grown late bound fit ms h rest (omega (arith, n, le)))

  -- One growth behind another.
  pub Grown-trans :
      (ms : List Payload) (n : ℕ) (b b' : Broker) (qs qs' : List Request)
      → (g : Grown ms n b qs) → Grown (ms ++ g.more) (length qs) b' qs'
      → Grown ms n b' qs'
  Grown-trans ms n b b' qs qs' g g' = record {
    more = g.more ++ g'.more;
    known = AllIn-append seen g.more g'.more g.known g'.known;
    log = subst (λ l. IsLog key m l b') (append_assoc ms g.more g'.more) g'.log;
    owes = g'.owes;
    count = omega (arith, g.count, g'.count, length-append g.more g'.more);
  }
