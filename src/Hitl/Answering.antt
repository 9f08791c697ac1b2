-- ===== src/Hitl/Answering.antt =====
-- The first answer to a park wins.
use agentic_kit.Base.{
  ℕ, ◌+◌, ◌≤◌, ◌≡◌, ◌⊎◌, ◌≢◌, refl, sym, ap, ◌∙◌, Bool, true, false, not, ◌&&◌, Option, none, some,
  String, str_eq, if◌then◌else◌, is_some, Bool-cases, Option-cases, inl, inr, arith, str_eq-eq_of,
  lookup,
}
use agentic_kit.Kv.{Kv, get, set}
use agentic_kit.Kv.Reads.{read, written, read-set, read-get}
use agentic_kit.Queue.{MemoryQueue, QueueError, queue_full, duplicate_job, enqueue}
use agentic_kit.Publish.{run_id_key}
use agentic_kit.Hitl.{
  HitlConfig, HitlStore, PendingHitl, RespondInput, RespondResult, delivered, no_pending,
  already_answered, hitl_key, answer_json, remaining_sec, find_match, find_request, load_open_hitls,
  resume_job, resume_options, model_of, ticket_of, is_waiting, respond_to, respond_found,
  dispatch_answer, respond,
}

module _ (config : HitlConfig) (s : HitlStore) (now : ℕ) (dispatch_id : String)
    (i : RespondInput) where
  abbrev kv_read : Kv
  kv_read = (get s.kv (run_id_key i.thread_id) now).0

  abbrev run_read : Option String
  run_read = (get s.kv (run_id_key i.thread_id) now).1

  -- The write of the answer to a park.
  abbrev answer_set : PendingHitl → Kv × Bool
  answer_set p =
      set kv_read (hitl_key i.tool_call_id) (answer_json i) (remaining_sec config now p) true now

  respond-cases :
      (respond config s now dispatch_id i ≡ (record s { kv = kv_read }, no_pending))
      ⊎ ((p : PendingHitl) × (respond config s now dispatch_id i
            ≡ respond_to config s now dispatch_id i kv_read run_read p))
  unfolding respond
  respond-cases =
      elim (Option-cases
        (find_match i.tool_call_id (load_open_hitls run_read s.requested s.expired s.answered))) [
          | inl n ↦ inl (ap (found (is_waiting (lookup i.thread_id s.threads.threads))) n)
          | inr (p, e) ↦ elim (Bool-cases (is_waiting (lookup i.thread_id s.threads.threads))) [
            | inl w ↦ inr (
              p,
              ap (found (is_waiting (lookup i.thread_id s.threads.threads))) e
                  ∙ ap (λ b. found b (some p)) w,
            )
            | inr w ↦ inl (
                ap (found (is_waiting (lookup i.thread_id s.threads.threads))) e
                ∙ ap (λ b. found b (some p)) w)
          ]
        ]
    where
      found : Bool → Option PendingHitl → HitlStore × RespondResult
      found = respond_found config s now dispatch_id i kv_read run_read

  -- An answer that was not written changes no key.
  respond_to-refused :
      (p : PendingHitl)
      → (answer_set p).1 ≡ false
      → respond_to config s now dispatch_id i kv_read run_read p
        ≡ (record s { kv = (answer_set p).0 }, already_answered)
  respond_to-refused p h = simp h refl

  dispatch-kv :
      (kv : Kv) (q : MemoryQueue × Option QueueError)
      → (dispatch_answer s i kv q).1 ≡ delivered
      → (dispatch_answer s i kv q).0.kv ≡ kv
  dispatch-kv kv (q, none) h = refl
  dispatch-kv kv (q, some duplicate_job) h = refl
  dispatch-kv kv (q, some queue_full) h = absurd (cc h)

  -- An answer that was delivered was written.
  respond_to-delivered :
      (p : PendingHitl)
      → (respond_to config s now dispatch_id i kv_read run_read p).1 ≡ delivered
      → ((answer_set p).1 ≡ true)
        × ((respond_to config s now dispatch_id i kv_read run_read p).0.kv ≡ (answer_set p).0)
  respond_to-delivered p h = elim (Bool-cases (answer_set p).1) [
    | inr w ↦ absurd (cc (sym (ap (λ r. r.1) (respond_to-refused p w)) ∙ h))
    | inl w ↦
        let e = written_to p w in
        (w, ap (λ r. r.0.kv) e ∙ dispatch-kv (answer_set p).0 _ (sym (ap (λ r. r.1) e) ∙ h))
  ]
    where
      written_to :
          (p : PendingHitl)
          → (answer_set p).1 ≡ true
          → respond_to config s now dispatch_id i kv_read run_read p
            ≡ dispatch_answer s i (answer_set p).0 (
                enqueue s.queue
                  (resume_job i.thread_id run_read dispatch_id
                    (model_of (lookup i.thread_id s.threads.threads))
                    (ticket_of (find_request i.tool_call_id s.requested)))
                  (resume_options i.tool_call_id))
      written_to p w = simp w refl

written_kept : (v : String) (ex now t : ℕ) → 60 ≤ ex → t ≤ now + 60000 → written v ex now t ≡ some v
written_kept v ex now t h k = ground (arith, h, k)

-- What a delivered answer leaves for a reader.
respond-read :
    (config : HitlConfig) (s : HitlStore) (now t : ℕ) (dispatch_id : String) (i : RespondInput)
    → (respond config s now dispatch_id i).1 ≡ delivered
    → now ≤ t
    → t ≤ now + 60000
    → read (respond config s now dispatch_id i).0.kv (hitl_key i.tool_call_id) t
      ≡ some (answer_json i)
respond-read config s now t dispatch_id i h le k = elim (respond-cases config s now dispatch_id i) [
  | inl e ↦ absurd (cc (sym (ap (λ r. r.1) e) ∙ h))
  | inr (p, e) ↦
      let key = hitl_key i.tool_call_id in
      let ex = remaining_sec config now p in
      let (w, q) = respond_to-delivered config s now dispatch_id i p (sym (ap (λ r. r.1) e) ∙ h) in
      let (_, r) =
        read-set (kv_read config s now dispatch_id i) key (answer_json i) key ex now t true le in
      ap (λ x. read x.0.kv key t) e
      ∙ ap (λ x. read x key t) q
      ∙ r
      ∙ ap
          (λ b.
            if b && str_eq key key
            then written (answer_json i) ex now t
            else read (kv_read config s now dispatch_id i) key t)
          w
      ∙ ap
          (λ b.
            if b
            then written (answer_json i) ex now t
            else read (kv_read config s now dispatch_id i) key t)
          (str_eq-eq_of {s = key} {t = key} refl)
      ∙ written_kept (answer_json i) ex now t (omega arith) k
]

-- An answer to a call that has one.
respond-again :
    (config : HitlConfig) (s : HitlStore) (now : ℕ) (dispatch_id : String) (i : RespondInput)
    (answer : String)
    → read s.kv (hitl_key i.tool_call_id) now ≡ some answer
    → ((respond config s now dispatch_id i).1 ≢ delivered)
      × (read (respond config s now dispatch_id i).0.kv (hitl_key i.tool_call_id) now ≡ some answer)
respond-again config s now dispatch_id i answer h =
    let key = hitl_key i.tool_call_id in
    let kv = kv_read config s now dispatch_id i in
    let same : read kv key now ≡ some answer =
      read-get s.kv (run_id_key i.thread_id) key now now (omega arith) ∙ h in
    elim (respond-cases config s now dispatch_id i) [
      | inl e ↦ (λ d. cc (sym (ap (λ r. r.1) e) ∙ d), ap (λ x. read x.0.kv key now) e ∙ same)
      | inr (p, e) ↦
          let (done, r) =
            read-set kv key (answer_json i) key (remaining_sec config now p) now now true
              (omega arith) in
          let w : (answer_set config s now dispatch_id i p).1 ≡ false =
            done ∙ ap (λ o. not (is_some o)) same in
          let f = e ∙ respond_to-refused config s now dispatch_id i p w in
          (
            λ d. cc (sym (ap (λ r. r.1) f) ∙ d),
            ap (λ x. read x.0.kv key now) f
                ∙ r
                ∙ ap
                    (λ b.
                      if b && str_eq key key
                      then written (answer_json i) (remaining_sec config now p) now now
                      else read kv key now)
                    w
                ∙ same,
          )
    ]

-- After an answer was delivered, none to the same call is for a minute, whatever has happened
-- meanwhile to the thread, its requests and the queue; and the answer that the resumed run finds
-- stays the first one.
pub respond_once :
    (config : HitlConfig) (s s' : HitlStore) (now later : ℕ) (dispatch_id other_id : String)
    (i again : RespondInput)
    → (respond config s now dispatch_id i).1 ≡ delivered
    → s'.kv ≡ (respond config s now dispatch_id i).0.kv
    → again.tool_call_id ≡ i.tool_call_id
    → now ≤ later
    → later ≤ now + 60000
    → ((respond config s' later other_id again).1 ≢ delivered)
      × (read (respond config s' later other_id again).0.kv (hitl_key again.tool_call_id) later
          ≡ some (answer_json i))
respond_once config s s' now later dispatch_id other_id i again h same_kv same_call le k =
    respond-again config s' later other_id again (answer_json i) (
      ap (λ x. read x (hitl_key again.tool_call_id) later) same_kv
      ∙ ap (λ c. read (respond config s now dispatch_id i).0.kv (hitl_key c) later) same_call
      ∙ respond-read config s now later dispatch_id i h le k)
