-- ===== src/Stop/Closing.antt =====
-- Once a stop has closed a thread's parks, none is open.
use agentic_kit.Base.{
  ℕ, suc, ◌≡◌, ◌⊎◌, refl, sym, ap, ap₂, ◌∙◌, Bool, true, false, ◌||◌, List, [], ◌∷◌, ◌++◌, map,
  append_assoc, Option, none, some, String, str_eq, any-append, drop, or_else, All, All-map,
  All-append, All-drop, Bool-cases, inl, inr, arith, eq_iff,
}
use agentic_kit.History.{Message, has, is_tool, parts_of}
use agentic_kit.Threads.{is_other_run}
use agentic_kit.Hitl.{
  HitlFrame, InputRequired, PendingHitl, from_input_required, first_waiting, run_of_park, opened,
  landed_at, load_open_hitls, call_id, named_ids, answered_ids,
}
use agentic_kit.Stop.{
  Closed, stopped_message, close_frame, close_frames, waiting_frames, close_call, close_park,
  close_parks, nothing_closed,
}

has-append : (id : String) (xs ys : List String) → has id (xs ++ ys) ≡ (has id xs || has id ys)
has-append id xs ys = any-append (str_eq id) xs ys

answered_ids-append :
    (xs ys : List Message) → answered_ids (xs ++ ys) ≡ answered_ids xs ++ answered_ids ys
unfolding answered_ids
answered_ids-append [] ys = refl
answered_ids-append (m ∷ xs) ys = elim (Bool-cases (is_tool m.role)) [
  | inl e ↦
      rw (e, answered_ids-append xs ys)
        (sym (
          append_assoc (named_ids (map call_id (parts_of m.content))) (answered_ids xs)
            (answered_ids ys)))
  | inr e ↦ rw e (answered_ids-append xs ys)
]

abbrev pub Within : List String → List String → Type 0
Within xs ys = (id : String) → has id xs ≡ true → has id ys ≡ true

-- A call with an id that is not empty.
abbrev pub IsNamed : String → Type 0
IsNamed id = str_eq id "" ≡ false

abbrev pub HasCallIds : PendingHitl → Type 0
HasCallIds p = IsNamed p.tool_call_id × All (λ f. IsNamed f.tool_call_id) p.frames

abbrev Answered : List String → HitlFrame → Type 0
Answered ids f = has f.tool_call_id ids ≡ true

-- The call of a park that is not landed, and every frame that waits.
abbrev Covers : List String → PendingHitl → Type 0
Covers ids p =
    ((p.landed ≡ true) ⊎ (has p.tool_call_id ids ≡ true)) × All (Answered ids) (waiting_frames p)

Covers-Within : (xs ys : List String) (p : PendingHitl) → Within xs ys → Covers xs p → Covers ys p
Covers-Within xs ys p w (a, b) = (
  elim a [ inl l ↦ inl l | inr h ↦ inr (w p.tool_call_id h) ],
  All-map (λ f h. w f.tool_call_id h) (waiting_frames p) b,
)

-- What is closed has been answered.
abbrev IsTrue : Closed → Type 0
IsTrue c = Within c.closed (answered_ids c.added)

message-has :
    (ms : List Message) (id name x : String)
    → IsNamed id
    → has x (answered_ids (ms ++ (stopped_message id name ∷ [])))
      ≡ (has x (answered_ids ms) || str_eq x id)
unfolding answered_ids
message-has ms id name x n =
    ap (has x) (answered_ids-append ms (stopped_message id name ∷ []))
    ∙ has-append x (answered_ids ms) (answered_ids (stopped_message id name ∷ []))
    ∙ ap (λ b. has x (answered_ids ms) || b) own
  where
    own : has x (answered_ids (stopped_message id name ∷ [])) ≡ str_eq x id
    own = rw n (ground arith)

-- Adding an answer keeps the others and answers its own call.
added-Within :
    (ms : List Message) (id name : String)
    → IsNamed id
    → Within (answered_ids ms) (answered_ids (ms ++ (stopped_message id name ∷ [])))
added-Within ms id name n x h = message-has ms id name x n ∙ ap (λ b. b || str_eq x id) h

added-has :
    (ms : List Message) (id name : String)
    → IsNamed id
    → has id (answered_ids (ms ++ (stopped_message id name ∷ []))) ≡ true
added-has ms id name n = message-has ms id name id n ∙ ground (arith, eq_iff id id)

abbrev Closes : Closed → Closed → Type 0
Closes c d = IsTrue d × Within (answered_ids c.added) (answered_ids d.added)

close_frame-Closes :
    (c : Closed) (f : HitlFrame)
    → IsNamed f.tool_call_id
    → IsTrue c
    → Closes c (close_frame c f) × Answered (answered_ids (close_frame c f).added) f
close_frame-Closes c f n t = elim (Bool-cases (has f.tool_call_id c.closed)) [
  | inl e ↦ rw e ((t, λ x h. h), t f.tool_call_id e)
  | inr e ↦ rw e (
    (fresh, added-Within c.added f.tool_call_id "spawnSubagent" n),
    added-has c.added f.tool_call_id "spawnSubagent" n,
  )
]
  where
    split :
        (x : String)
        → (has x (f.tool_call_id ∷ c.closed)) ≡ true
        → (str_eq x f.tool_call_id ≡ true) ⊎ (has x c.closed ≡ true)
    split x h = ground (arith, h)

    fresh :
        Within
          (f.tool_call_id ∷ c.closed)
          (answered_ids (c.added ++ (stopped_message f.tool_call_id "spawnSubagent" ∷ [])))
    fresh x h = elim (split x h) [
      | inl e ↦ message-has c.added f.tool_call_id "spawnSubagent" x n ∙ ground (arith, e)
      | inr g ↦ added-Within c.added f.tool_call_id "spawnSubagent" n x (t x g)
    ]

close_frames-Closes :
    (c : Closed) (fs : List HitlFrame)
    → All (λ f. IsNamed f.tool_call_id) fs
    → IsTrue c
    → Closes c (close_frames c fs) × All (Answered (answered_ids (close_frames c fs).added)) fs
unfolding close_frames
close_frames-Closes c [] n t = ((t, λ x h. h), tt)
close_frames-Closes c (f ∷ fs) n t =
    let ((t', w), a) = close_frame-Closes c f n.0 t in
    let ((t'', w'), bs) = close_frames-Closes (close_frame c f) fs n.1 t' in
    ((t'', λ x h. w' x (w x h)), (w' f.tool_call_id a, bs))

close_call-Closes :
    (c : Closed) (p : PendingHitl)
    → HasCallIds p
    → IsTrue c
    → Closes c (close_call c p)
      × ((p.landed ≡ true) ⊎ (has p.tool_call_id (answered_ids (close_call c p).added) ≡ true))
close_call-Closes c p n t = elim (Bool-cases p.landed) [
  | inl e ↦ (rw e (t, λ x h. h), inl e)
  | inr e ↦ (
    rw e (
      λ x h. added-Within c.added p.tool_call_id p.tool_name n.0 x (t x h),
      added-Within c.added p.tool_call_id p.tool_name n.0,
    ),
    inr (rw e (added-has c.added p.tool_call_id p.tool_name n.0)),
  )
]

waiting_frames-IsNamed :
    (p : PendingHitl) → HasCallIds p → All (λ f. IsNamed f.tool_call_id) (waiting_frames p)
waiting_frames-IsNamed p n = elim (Bool-cases p.landed) [
  | inl e ↦ rw e (All-drop (λ f. IsNamed f.tool_call_id) (or_else p.resume_frame 0) p.frames n.1)
  | inr e ↦ rw e n.1
]

close_park-Closes :
    (c : Closed) (p : PendingHitl)
    → HasCallIds p
    → IsTrue c
    → Closes c (close_park c p) × Covers (answered_ids (close_park c p).added) p
close_park-Closes c p n t =
    let ((t', w), a) = close_call-Closes c p n t in
    let ((t'', w'), bs) =
      close_frames-Closes (close_call c p) (waiting_frames p) (waiting_frames-IsNamed p n) t' in
    ((t'', λ x h. w' x (w x h)), (elim a [ inl l ↦ inl l | inr h ↦ inr (w' p.tool_call_id h) ], bs))

close_parks-Closes :
    (c : Closed) (ps : List PendingHitl)
    → All HasCallIds ps
    → IsTrue c
    → Closes c (close_parks c ps) × All (Covers (answered_ids (close_parks c ps).added)) ps
unfolding close_parks
close_parks-Closes c [] n t = ((t, λ x h. h), tt)
close_parks-Closes c (p ∷ ps) n t =
    let ((t', w), a) = close_park-Closes c p n.0 t in
    let ((t'', w'), bs) = close_parks-Closes (close_park c p) ps n.1 t' in
    (
      (t'', λ x h. w' x (w x h)),
      (
        Covers-Within (answered_ids (close_park c p).added)
            (answered_ids (close_parks (close_park c p) ps).added) p w' a,
        bs,
      ),
    )

first_waiting-none :
    (ids : List String) (fs : List HitlFrame) → All (Answered ids) fs → first_waiting ids fs ≡ none
unfolding first_waiting
first_waiting-none ids [] h = refl
first_waiting-none ids (f ∷ fs) h = rw (h.0, first_waiting-none ids fs h.1) refl

-- The frames before the first that waits are answered.
first_waiting-Answered :
    (xs ys : List String) (fs : List HitlFrame)
    → Within xs ys
    → ((first_waiting xs fs ≡ none) × All (Answered ys) fs)
      ⊎ ((k : ℕ) × (first_waiting xs fs ≡ some k)
          × (All (Answered ys) (drop k fs) → All (Answered ys) fs))
unfolding first_waiting
first_waiting-Answered xs ys [] w = inl (refl, tt)
first_waiting-Answered xs ys (f ∷ fs) w = elim (Bool-cases (has f.tool_call_id xs)) [
  | inr e ↦ inr (0, rw e refl, λ a. a)
  | inl e ↦ elim (first_waiting-Answered xs ys fs w) [
    | inl (n, a) ↦ inl (rw (e, n) refl, (w f.tool_call_id e, a))
    | inr (k, g, h) ↦ inr (suc k, rw (e, g) refl, λ a. (w f.tool_call_id e, h a))
  ]
]

settled_later :
    (expired xs ys : List String) (id : String)
    → Within xs ys
    → (has id xs || has id expired) ≡ true
    → (has id ys || has id expired) ≡ true
settled_later expired xs ys id w h = elim (Bool-cases (has id xs)) [
  | inl e ↦ ap (λ b. b || has id expired) (w id e)
  | inr e ↦ ground (arith, e, h)
]

-- With everything answered, nothing is pushed for a request.
opened-none :
    (current : Option String) (expired ys : List String) (p : PendingHitl)
    → (has p.tool_call_id ys || has p.tool_call_id expired) ≡ true
    → All (Answered ys) p.frames
    → opened current expired ys p ≡ []
unfolding opened
opened-none current expired ys p s a = elim (Bool-cases (is_other_run (run_of_park p) current)) [
  | inl o ↦ rw o refl
  | inr o ↦ rw (o, s) (rw (first_waiting-none ys p.frames a) refl)
]

opened-closed :
    (current : Option String) (expired xs ys : List String) (p : PendingHitl)
    → p.landed ≡ false
    → Within xs ys
    → All (Covers ys) (opened current expired xs p)
    → opened current expired ys p ≡ []
unfolding opened
opened-closed current expired xs ys p l w h =
    elim (Bool-cases (is_other_run (run_of_park p) current)) [
      | inl o ↦ rw o refl
      | inr o ↦ elim (Bool-cases (has p.tool_call_id xs || has p.tool_call_id expired)) [
        | inr s ↦
            let ((call, frames), _) : Covers ys p × Unit = rw (o, s) at h in
            opened-none current expired ys p (answered_now call) (rw l at frames)
        | inl s ↦ elim (first_waiting-Answered xs ys p.frames w) [
          | inl (n, a) ↦
              opened-none current expired ys p (settled_later expired xs ys p.tool_call_id w s) a
          | inr (k, g, all) ↦
              let ((_, frames), _) : Covers ys (record p { landed = true; resume_frame = some k })
                  × Unit =
                rw (o, s, g) at h in
              opened-none current expired ys p (settled_later expired xs ys p.tool_call_id w s)
                (all frames)
        ]
      ]
    ]
  where
    answered_now :
        (p.landed ≡ true) ⊎ (has p.tool_call_id ys ≡ true)
        → (has p.tool_call_id ys || has p.tool_call_id expired) ≡ true
    answered_now (inl e) = absurd (cc (sym e ∙ l))
    answered_now (inr e) = ap (λ b. b || has p.tool_call_id expired) e

All-split : {A : Type 0} (P : A → Type 0) (xs ys : List A) → All P (xs ++ ys) → All P xs × All P ys
All-split P [] ys h = (tt, h)
All-split P (x ∷ xs) ys (a, h) = let (b, c) = All-split P xs ys h in ((a, b), c)

load_open_hitls-closed :
    (current : Option String) (requested : List InputRequired) (expired xs ys : List String)
    → Within xs ys
    → All (Covers ys) (load_open_hitls current requested expired xs)
    → load_open_hitls current requested expired ys ≡ []
unfolding load_open_hitls from_input_required
load_open_hitls-closed current [] expired xs ys w h = refl
load_open_hitls-closed current (e ∷ es) expired xs ys w h =
    let (a, b) = All-split (Covers ys) (opened current expired xs (from_input_required e)) _ h in
    ap₂ (λ x y. x ++ y) (opened-closed current expired xs ys (from_input_required e) (raw e) w a)
      (load_open_hitls-closed current es expired xs ys w b)
  where
    raw : (e : InputRequired) → (from_input_required e).landed ≡ false
    raw e = refl

opened-HasCallIds :
    (current : Option String) (expired xs : List String) (p : PendingHitl)
    → HasCallIds p
    → All HasCallIds (opened current expired xs p)
unfolding opened
opened-HasCallIds current expired xs p n =
    elim (Bool-cases (is_other_run (run_of_park p) current)) [
      | inl o ↦ rw o tt
      | inr o ↦ elim (Bool-cases (has p.tool_call_id xs || has p.tool_call_id expired)) [
        | inr s ↦ rw (o, s) (n, tt)
        | inl s ↦ rw (o, s) (landed_named (first_waiting xs p.frames))
      ]
    ]
  where
    landed_named : (k : Option ℕ) → All HasCallIds (landed_at p k)
    landed_named none = tt
    landed_named (some k) = (n, tt)

load_open_hitls-HasCallIds :
    (current : Option String) (requested : List InputRequired) (expired xs : List String)
    → All (λ e. HasCallIds (from_input_required e)) requested
    → All HasCallIds (load_open_hitls current requested expired xs)
unfolding load_open_hitls
load_open_hitls-HasCallIds current [] expired xs n = tt
load_open_hitls-HasCallIds current (e ∷ es) expired xs n =
    All-append HasCallIds (opened current expired xs (from_input_required e)) _
      (opened-HasCallIds current expired xs (from_input_required e) n.0)
      (load_open_hitls-HasCallIds current es expired xs n.1)

-- Where every request, and every frame above it, names its tool call with an id that is not empty: once
-- the stored messages gain what closing every open park of a thread adds, no park of it is open any
-- more, neither the calls nor any frame above them, landed parks included.
pub close_parks_none :
    (current : Option String) (requested : List InputRequired) (expired : List String)
    (messages : List Message)
    → All (λ e. HasCallIds (from_input_required e)) requested
    → let open_parks = load_open_hitls current requested expired (answered_ids messages) in
      load_open_hitls current requested expired
        (answered_ids (messages ++ (close_parks nothing_closed open_parks).added))
      ≡ []
close_parks_none current requested expired messages n =
    let open_parks = load_open_hitls current requested expired (answered_ids messages) in
    let new = (close_parks nothing_closed open_parks).added in
    let ((t, w), covers) =
      close_parks-Closes nothing_closed open_parks
        (load_open_hitls-HasCallIds current requested expired (answered_ids messages) n)
        (λ x h. absurd (cc h)) in
    load_open_hitls-closed current requested expired (answered_ids messages)
      (answered_ids (messages ++ new))
      (λ x h.
        ap (has x) (answered_ids-append messages new)
        ∙ has-append x (answered_ids messages) (answered_ids new)
        ∙ ap (λ b. b || has x (answered_ids new)) h)
      (All-map
        (λ p c.
          Covers-Within (answered_ids new) (answered_ids (messages ++ new)) p
            (λ x h.
              ap (has x) (answered_ids-append messages new)
              ∙ has-append x (answered_ids messages) (answered_ids new)
              ∙ or_true (has x (answered_ids messages)) h)
            c)
        open_parks covers)
  where
    or_true : {b : Bool} (a : Bool) → b ≡ true → (a || b) ≡ true
    or_true a h = ground (arith, h)
