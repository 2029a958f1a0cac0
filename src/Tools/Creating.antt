-- ===== src/Tools/Creating.antt =====
-- The creation of a partition by the control program.
use mykafka.Prelude.{ℕ, ◌≡◌, refl, sym, ap, ◌∙◌, subst, none, [], ◌∷◌, inl, inr, ◌⊎◌}
use mykafka.Prelude.Int.{ℤ, pos}
use mykafka.Error.{ErrCode, success, ok}
use mykafka.Env.{calm}
use mykafka.Names.{same_text_refl}
use mykafka.Config.Keys.{key_name}
use mykafka.Config.State.{find_file, find_config}
use mykafka.Broker.State.{Broker, find_topic, files_under}
use mykafka.Broker.Create.{TopicRequest}
use mykafka.Broker.Log.{IsLog, create_partition-IsLog}
use mykafka.Network.Requests.{create, Response, done, serve}
use mykafka.Network.Client.{Status, good, Answer, Link, new_client, attempt, method, no_reply}
use mykafka.Network.Delivers.{Carried, answered, not_sent, not_told, Carries, attempt-Carried}
use mykafka.Network.Retry.{ok-eq}
use mykafka.Tools.Lines.{Line, created_line, Exit, check_error, or_else, stopped}
use mykafka.Tools.Ctl.{CtlOptions, create_word, ask, ctl}
use mykafka.Tools.Named.{IsNamed, check_topic-IsNamed, check_partition-IsNamed}

-- The broker knows nothing of the partition, and has no files of it.
pub record IsNew (request : TopicRequest) (b : Broker) : Type 0 where
  pub unknown : find_topic request.key b.topics ≡ none
  pub no_files : files_under (key_name request.key) b.disk ≡ []
  pub no_file : find_file (key_name request.key) b.config.dir ≡ none
  pub absent : find_config request.key b.config.configs ≡ none

-- The limit of a segment alone is set.
pub record IsPlain (m : ℕ) (request : TopicRequest) : Type 0 where
  pub segment_size : request.max_segment_size ≡ pos m
  pub no_limit : request.max_partition_size ≡ pos 0
  pub no_ttl : request.segment_ttl ≡ pos 0

done-eq : {r s : ErrCode} → done r ≡ done s → r ≡ s
done-eq {r} e = ap (λ a. elim a as (λ _. ErrCode) [ done x ↦ x | _ ↦ r ]) e

-- CHECK_ERROR and the line of the success, behind the call.
abbrev finish : {W : Type 0} → (ErrCode → Line) → Status × ErrCode × W → Exit W
finish line (status, r, w) =
    or_else (check_error status r) (stopped [] w)
      (record { code = 0; lines = line r ∷ []; world = w })

module _ {W : Type 0} (broker : W → Broker) (link : Link W) (carries : Carries broker link) (m : ℕ)
    (request : TopicRequest) (plain : IsPlain m request) where
  created :
      (now : ℤ) (b b' : Broker) (told : Response)
      → IsNew request b
      → serve calm now (create request) b ≡ (ok told, b')
      → (told ≡ done success) × IsLog request.key m [] b'
  unfolding serve
  created now b b' told new e =
      let (b1, e1, log) =
        create_partition-IsLog m now request b new.unknown new.no_files new.no_file new.absent
          plain.segment_size plain.no_limit plain.no_ttl in
      let served : serve calm now (create request) b ≡ (ok (done success), b1) =
        rw (e1, serve) refl in
      let same = sym served ∙ e in
      (sym (ok-eq (ap (λ p. p.0) same)), subst (IsLog request.key m []) (ap (λ p. p.1) same) log)

  -- The end of the call, by its status.
  asked :
      (line : ErrCode → Line) (w : W) (a : Answer W (create request))
      → IsNew request (broker w)
      → Carried broker (create request) w a
      → ((finish line a).code ≡ 0) × IsLog request.key m [] (broker (finish line a).world)
        ⊎ ((finish line a).code ≡ 5)
  unfolding check_error
  asked line w a new (answered now e) =
      let (told, log) = created now (broker w) (broker a.2) _ new e in
      let same : a.1 ≡ success = done-eq told in
      inl (
        ap (λ r. (finish line (good, r, a.2)).code) same,
        subst (λ r. IsLog request.key m [] (broker (finish line (good, r, a.2)).world)) (sym same)
            log,
      )
  asked line w a new (not_sent e) = inr refl
  asked line w a new (not_told now told e) = inr refl

  -- Over a network that may lose calls and answers, to a broker that no one else calls, no call
  -- of which fails and which knows nothing of the partition, the control program with the action
  -- create, a topic, a partition from 0 on and no limit but that of the segments ends with code
  -- 0, and then the partition is a log without messages, or with code 5.
  pub ctl-create :
      (o : CtlOptions) (w : W)
      → o.action ≡ create_word
      → o.request ≡ request
      → IsNamed request.key
      → IsNew request (broker w)
      → ((ctl link o w).code ≡ 0) × IsLog request.key m [] (broker (ctl link o w).world)
        ⊎ ((ctl link o w).code ≡ 5)
  unfolding ctl ask new_client method
  ctl-create o w action is_request named new =
      let exit : ctl link o w
          ≡ finish (λ _. created_line request.key)
              (attempt (new_client link (pos 0)) (create request) (no_reply (create request)) w) =
        rw (action, ctl)
          (rw is_request (
            rw (same_text_refl create_word) (
              rw (check_topic-IsNamed request.key named)
                (rw (check_partition-IsNamed request.key named) refl)))) in
      rw exit (
        asked (λ _. created_line request.key) w _ new
          (attempt-Carried broker (new_client link (pos 0)) carries (create request)
            (no_reply (create request)) w))
