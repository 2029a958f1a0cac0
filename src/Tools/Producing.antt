-- ===== src/Tools/Producing.antt =====
-- What the producer leaves in the log of a partition, over a network that may serve calls late.
use mykafka.Prelude.{
  ℕ, suc, ◌+◌, ◌*◌, ◌<◌, ◌≤◌, ◌^◌, ◌≡◌, refl, sym, ap, subst, inl, inr, true, Option, some, List,
  [], ◌∷◌, ◌++◌, append_assoc, append-nil, arith, length, length-append,
}
use mykafka.Prelude.Int.{pos}
use mykafka.Error.{success}
use mykafka.Index.Opening.{default_entries}
use mykafka.Segment.Layout.{Payload}
use mykafka.Config.Keys.{Key}
use mykafka.Broker.State.{Broker}
use mykafka.Broker.Messages.{SendResponse}
use mykafka.Broker.Log.{IsLog, send_message-IsLog}
use mykafka.Network.Requests.{Request, send}
use mykafka.Network.Client.{Status, good, Answer, Client, attempt, method, no_reply}
use mykafka.Network.Delivers.{serve-send, Reaches}
use mykafka.Network.Late.{Delivers, Owes, Sizes, Fit, Fit-Room, Late, Late-Grown}
use mykafka.Network.Copies.{Copies, ended-Copies}
use mykafka.Tools.Within.{AllWithin}
use mykafka.Tools.Lines.{Line, written_line}
use mykafka.Tools.Producer.{report, send_lines}
use mykafka.Tools.Orders.{Sent, all_sent, all_of, Sent-at, Sent-copies, Sent-end}

-- The messages fit, be each of them sent as often as the attempts allow, with the calls that are
-- under way.
pub record RoomFor (m attempts n : ℕ) (input : List Payload) : Type 0 where
  pub sizes : Sizes m input
  pub entries : m < 12 * default_entries
  pub offsets : n + length input * suc attempts < 2 ^ 63

report-good :
    (s : Status) (r : SendResponse) (n : ℕ)
    → s ≡ good
    → r ≡ record { code = success; offset = pos n }
    → report s r ≡ written_line (pos n)
unfolding report
report-good s r n e f = rw (e, f) refl

-- What sending the lines leaves.
pub record Leaves {W : Type 0} (broker : W → Broker) (owed : W → List Request) (key : Key)
    (m bound : ℕ) (seen ms input : List Payload) (sends : Option (List Line × W)) : Type 0 where
  pub messages : List Payload
  pub lines : List Line
  pub world : W
  pub ends : sends ≡ some (lines, world)
  pub sent : Sent seen (length ms) input messages lines
  pub log : IsLog key m (ms ++ messages) (broker world)
  pub owes : Owes key (all_of input seen) (owed world)
  pub count : length (ms ++ messages) + length (owed world) ≤ bound

module _ {W : Type 0} (broker : W → Broker) (owed : W → List Request) (c : Client W)
    (delivers : Delivers broker owed c.link) (limit attempts : ℕ)
    (reaches : Reaches broker limit attempts c) (key : Key) (m bound : ℕ)
    (entries : m < 12 * default_entries) (offsets : bound < 2 ^ 63)
    (topic : length key.topic ≤ limit) where
  fits : (seen : List Payload) → Sizes m seen → Fit m bound seen
  fits seen sizes = record { sizes = sizes; entries = entries; offsets = offsets }

  -- The first message is told to be there in the end.
  reaches-Copies :
      (seen ms : List Payload) (x : Payload) (w : W) (sizes : Sizes m (x ∷ seen))
      → length x ≤ limit
      → IsLog key m ms (broker w)
      → Owes key (x ∷ seen) (owed w)
      → length ms + length (owed w) + suc attempts ≤ bound
      → (a : Answer W (send key x)) × (method attempts c (send key x) (no_reply (send key x)) true w
          ≡ some a)
        × Copies broker owed c delivers key m bound
            (x ∷ seen)
            (fits (x ∷ seen) sizes)
            x
            (inl refl)
            attempts
            ms
            (length (owed w))
            (attempt c (send key x) (no_reply (send key x)) w)
            a
  reaches-Copies seen ms x w sizes small h owes le =
      let fit = fits (x ∷ seen) sizes in
      let (a, e) = reaches (send key x) (no_reply (send key x)) w (λ now.
        let (b', sends, _) =
          send_message-IsLog key m ms (broker w) now x h
            (Fit-Room m bound (length ms) (x ∷ seen) x fit (inl refl) (omega arith)) in
        (_, b', serve-send now key x (broker w) b' _ sends, (topic, small))) in
      (
        a,
        e,
        ended-Copies broker owed c delivers key m bound (x ∷ seen) fit x (inl refl) attempts ms
            (no_reply (send key x)) w a h owes le e,
      )

  Owes-cons :
      (seen : List Payload) (x : Payload) (qs : List Request)
      → Owes key seen qs
      → Owes key (x ∷ seen) qs
  Owes-cons seen x [] h = tt
  Owes-cons seen x (q ∷ qs) ((y, e, this), h) = ((y, e, inr this), Owes-cons seen x qs h)

  next_budget :
      (n o x y o' tries i more : ℕ)
      → n + o + suc i * suc attempts ≤ bound
      → tries ≤ attempts
      → x + y + o' ≤ tries + o
      → more ≡ n + x + suc y
      → more + o' + i * suc attempts ≤ bound
  next_budget n o x y o' tries i more le few count e = grind arith

  pub send_lines-Leaves :
      (seen ms input : List Payload) (w : W)
      → Sizes m seen
      → Sizes m input
      → AllWithin limit input
      → IsLog key m ms (broker w)
      → Owes key seen (owed w)
      → length ms + length (owed w) + length input * suc attempts ≤ bound
      → Leaves broker owed key m bound seen ms input (send_lines attempts c key input w)
  unfolding send_lines
  send_lines-Leaves seen ms [] w sent_sizes sizes small h owes le = record {
    messages = [];
    lines = [];
    world = w;
    ends = refl;
    sent = all_sent;
    log = subst (λ l. IsLog key m l (broker w)) (sym (append-nil ms)) h;
    owes = owes;
    count = omega (arith, length-append ms []);
  }
  send_lines-Leaves seen ms (x ∷ input) w sent_sizes (size, sizes) (this, small) h owes le =
      let (a, e, copies) =
        reaches-Copies seen ms x w (size, sent_sizes) this h (Owes-cons seen x (owed w) owes)
          (grind arith) in
      let new = copies.before ++ x ∷ copies.behind in
      let length_new : length new ≡ length copies.before + suc (length copies.behind) =
        length-append copies.before (x ∷ copies.behind) in
      let rest =
        send_lines-Leaves (x ∷ seen) (ms ++ new) input a.2 (size, sent_sizes) sizes small copies.log
          copies.owes
          (next_budget (length ms) (length (owed w)) (length copies.before) (length copies.behind)
            (length (owed a.2)) copies.again (length input) (length (ms ++ new)) le copies.few
            copies.count (omega (arith, length_new, length-append ms new))) in
      record {
        messages = new ++ rest.messages;
        lines = written_line (pos (length ms + length copies.before)) ∷ rest.lines;
        world = rest.world;
        ends =
            rw (e, send_lines)
              (rw rest.ends (
                ap (λ l. some (l ∷ rest.lines, rest.world))
                  (report-good a.0 a.1 (length ms + length copies.before) copies.status
                    copies.told)));
        sent =
            Sent-copies copies.before copies.behind (length ms) x copies.known_before
              copies.known_behind
              (Sent-at (omega (arith, length_new, length-append ms new)) rest.sent);
        log =
            subst (λ l. IsLog key m l (broker rest.world)) (append_assoc ms new rest.messages)
              rest.log;
        owes = rest.owes;
        count =
            subst (λ l. length l + length (owed rest.world) ≤ bound)
              (append_assoc ms new rest.messages) rest.count;
      }

pub Sizes-all_of :
    (m : ℕ) (input seen : List Payload) → Sizes m input → Sizes m seen → Sizes m (all_of input seen)
Sizes-all_of m [] seen hi hs = hs
Sizes-all_of m (x ∷ input) seen hi hs = Sizes-all_of m input (x ∷ seen) hi.1 (hi.0, hs)

-- What the log has when some of the calls that are left are served.
pub Leaves-later :
    {W : Type 0} (broker : W → Broker) (owed : W → List Request) (key : Key) (m bound : ℕ)
    (seen ms input : List Payload) (sends : Option (List Line × W))
    → (l : Leaves broker owed key m bound seen ms input sends) → Fit m bound (all_of input seen)
    → (b : Broker) (qs : List Request) → Late (broker l.world) (owed l.world) b qs
    → (messages : List Payload) × Sent seen (length ms) input messages l.lines
      × IsLog key m (ms ++ messages) b
      × (length ms + length messages ≤ bound)
Leaves-later broker owed key m bound seen ms input sends l fit b qs late =
    let g =
      Late-Grown key m (all_of input seen) late bound fit (ms ++ l.messages) l.log l.owes l.count in
    (
      l.messages ++ g.more,
      Sent-end g.more l.sent g.known,
      subst (λ l. IsLog key m l b) (append_assoc ms l.messages g.more) g.log,
      omega (arith, g.count, l.count, length-append ms l.messages, length-append l.messages g.more),
    )
