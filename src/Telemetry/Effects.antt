-- ===== src/Telemetry/Effects.antt =====
-- What each event does to the requests that the exporter of packages/telemetry-sdk/src/span.ts holds.
use obs_unified.Common.{
  ℕ, zero, suc, ◌+◌, ◌-◌, ◌≤◌, ◌≡◌, inl, inr, refl, sym, ap, ◌∙◌, Bool, true, false, List, [], ◌∷◌,
  ◌++◌, Option, none, some, length, drop, flat_map, length-append, arith, ltb, leb, Bool-cases,
  leb→le, ltb-false→le, leb-false→lt, if◌then◌else◌,
}
use mathlib.Core.List.{append-nil, append_assoc}
use obs_unified.Telemetry.Otlp.{OtlpTraceExportRequest}
use obs_unified.Telemetry.Exporter.{
  max_span_buffer_size, SpanExporterConfig, Post, Flush, Exporter, after_flush, enqueue_span_export,
  requeue_spans, flush_spans, end_flush, Event, init_span_exporter, shutdown_span_exporter, flush,
  proceed_shutdown, close, end_span, answer, step,
}
use obs_unified.Telemetry.KeepLast.{keep_last, drop-append_front, keep_last_short}

-- The requests that a flush has taken and not yet ended
unfoldable pub in_flight : List Flush → List OtlpTraceExportRequest
in_flight awaiting = flat_map (λ f. f.batch) awaiting

-- The requests that were given and not answered, the oldest first
abbrev pub waiting : Exporter → List OtlpTraceExportRequest
waiting s = in_flight s.awaiting ++ s.buffer

-- What an event gives to an exporter that is set up
unfoldable pub given : Event → Exporter → List OtlpTraceExportRequest
given (end_span request) s = elim s.config [ none ↦ [] | some config ↦ request ∷ [] ]
given (init_span_exporter config) s = []
given shutdown_span_exporter s = []
given flush s = []
given proceed_shutdown s = []
given (answer outcome) s = []

-- At most one flush awaits its request, and the flag is set exactly then.
unfoldable pub IsAlone : Bool → List Flush → Type 0
IsAlone false [] = Unit
IsAlone true (f ∷ []) = Unit
IsAlone _ _ = ⊥

enqueue_kept :
    (request : OtlpTraceExportRequest) (buffer : List OtlpTraceExportRequest)
    → (if leb max_span_buffer_size (length buffer)
          then drop ((length buffer - max_span_buffer_size) + 1) buffer
          else buffer)
        ++ request ∷ []
      ≡ keep_last 200 (buffer ++ request ∷ [])
unfolding keep_last
enqueue_kept request buffer = elim (Bool-cases (leb 200 (length buffer))) [
  | inl full ↦
      let k = (length buffer - 200) + 1 in
      let long = leb→le 200 (length buffer) full in
      let same : length (buffer ++ request ∷ []) - 200 ≡ k =
        omega (arith, long, length-append buffer (request ∷ [])) in
      rw full (
        sym (drop-append_front k buffer (request ∷ []) (omega (arith, long)))
        ∙ ap (λ n. drop n (buffer ++ request ∷ [])) (sym same))
  | inr room ↦
      let short = leb-false→lt 200 (length buffer) room in
      rw room (
        sym (
          keep_last_short 200 (buffer ++ request ∷ [])
            (omega (arith, short, length-append buffer (request ∷ [])))))
]

requeue_spans-keep_last :
    (batch : List OtlpTraceExportRequest) (s : Exporter)
    → length s.buffer ≤ 200
    → requeue_spans batch s ≡ record s { buffer = keep_last 200 (batch ++ s.buffer) }
unfolding requeue_spans keep_last
requeue_spans-keep_last [] s h =
    let filled = λ (buffer : List OtlpTraceExportRequest). record s { buffer = buffer } in
    ap filled (sym (keep_last_short 200 s.buffer h))
requeue_spans-keep_last (r ∷ batch) s h =
    let buffer = r ∷ batch ++ s.buffer in
    let filled = λ (l : List OtlpTraceExportRequest). record s { buffer = l } in
    elim (Bool-cases (ltb 200 (length buffer))) [
      | inl over ↦ rw over refl
      | inr room ↦
          rw room
            (ap filled (sym (keep_last_short 200 buffer (ltb-false→le 200 (length buffer) room))))
    ]

-- What an event makes of the requests waiting: some may be answered, of the others a front is in
-- flight, and of the rest the buffer holds the newest.
pub record Effect (delivers : Bool) (xs : List OtlpTraceExportRequest) (s s' : Exporter)
    : Type 0 where
  pub taken : List OtlpTraceExportRequest
  pub front : List OtlpTraceExportRequest
  pub back : List OtlpTraceExportRequest
  pub whole : waiting s ++ xs ≡ taken ++ (front ++ back)
  pub answered_taken : s'.answered ≡ s.answered ++ taken
  pub flying : in_flight s'.awaiting ≡ front
  pub kept : s'.buffer ≡ keep_last 200 back
  pub alone : IsAlone s'.in_progress s'.awaiting
  pub keeps : delivers ≡ false → taken ≡ []

unfoldable pub IsSound : Exporter → Type 0
IsSound s = (length s.buffer ≤ 200) × IsAlone s.in_progress s.awaiting

no-Effect :
    (delivers : Bool) (s s' : Exporter)
    → IsSound s
    → s'.answered ≡ s.answered
    → s'.awaiting ≡ s.awaiting
    → s'.buffer ≡ s.buffer
    → s'.in_progress ≡ s.in_progress
    → Effect delivers [] s s'
unfolding IsSound
no-Effect delivers s s' (bound, alone) same_delivered same_awaiting same_buffer same_flag = record {
  taken = [];
  front = in_flight s.awaiting;
  back = s.buffer;
  whole = append-nil (waiting s);
  answered_taken = same_delivered ∙ sym (append-nil s.answered);
  flying = ap in_flight same_awaiting;
  kept = same_buffer ∙ sym (keep_last_short 200 s.buffer bound);
  alone = rw same_flag (rw same_awaiting alone);
  keeps = λ h. refl;
}

after_flush-Effect :
    (delivers closing : Bool) (xs : List OtlpTraceExportRequest) (s s' : Exporter)
    → Effect delivers xs s s'
    → Effect delivers xs s (after_flush closing s')
after_flush-Effect delivers true xs s s' effect = record {
  taken = effect.taken;
  front = effect.front;
  back = effect.back;
  whole = effect.whole;
  answered_taken = effect.answered_taken;
  flying = effect.flying;
  kept = effect.kept;
  alone = effect.alone;
  keeps = effect.keeps;
}
after_flush-Effect delivers false xs s s' effect = effect

-- Whether `fetch` gave an answer
abbrev is_answered : Option ℕ → Bool
is_answered none = false
is_answered (some status) = true

-- The exporter with its fields as arguments, to split on them
abbrev exporter_of :
    Option SpanExporterConfig
    → List OtlpTraceExportRequest
    → Bool
    → List Flush
    → ℕ
    → List Post
    → List OtlpTraceExportRequest
    → Exporter
exporter_of config buffer in_progress awaiting closings posted answered = record {
  config = config;
  buffer = buffer;
  in_progress = in_progress;
  awaiting = awaiting;
  closings = closings;
  posted = posted;
  answered = answered;
}

module _ (buffer : List OtlpTraceExportRequest) (in_progress : Bool) (awaiting : List Flush)
    (closings : ℕ) (posted : List Post) (answered : List OtlpTraceExportRequest) where
  end_span-Effect :
      (request : OtlpTraceExportRequest) (config : Option SpanExporterConfig)
      → let s = exporter_of config buffer in_progress awaiting closings posted answered in
        IsSound s → Effect false (given (end_span request) s) s (enqueue_span_export request s)
  unfolding given enqueue_span_export IsSound
  end_span-Effect request none sound = no-Effect false _ _ sound refl refl refl refl
  end_span-Effect request (some config) (bound, alone) = record {
    taken = [];
    front = in_flight awaiting;
    back = buffer ++ request ∷ [];
    whole = append_assoc (in_flight awaiting) buffer (request ∷ []);
    answered_taken = sym (append-nil answered);
    flying = refl;
    kept = enqueue_kept request buffer;
    alone = alone;
    keeps = λ h. refl;
  }

module _ (closing : Bool) (closings : ℕ) (posted : List Post)
    (answered : List OtlpTraceExportRequest) where
  flush_spans-Effect :
      (config : Option SpanExporterConfig) (buffer : List OtlpTraceExportRequest)
      (in_progress : Bool) (awaiting : List Flush)
      → let s = exporter_of config buffer in_progress awaiting closings posted answered in
        IsSound s → Effect false [] s (flush_spans closing s)
  unfolding flush_spans IsSound IsAlone in_flight keep_last
  flush_spans-Effect none buffer in_progress awaiting sound =
      after_flush-Effect false closing [] _ _ (no-Effect false _ _ sound refl refl refl refl)
  flush_spans-Effect (some config) [] in_progress awaiting sound =
      after_flush-Effect false closing [] _ _ (no-Effect false _ _ sound refl refl refl refl)
  flush_spans-Effect (some config) (r ∷ buffer) true awaiting sound =
      after_flush-Effect false closing [] _ _ (no-Effect false _ _ sound refl refl refl refl)
  flush_spans-Effect (some config) (r ∷ buffer) false [] sound = record {
    taken = [];
    front = r ∷ buffer;
    back = [];
    whole = refl;
    answered_taken = sym (append-nil answered);
    flying = append-nil (r ∷ buffer);
    kept = refl;
    alone = tt;
    keeps = λ h. refl;
  }
  flush_spans-Effect (some config) (r ∷ buffer) false (f ∷ awaiting) (bound, alone) = absurd alone

module _ (config : Option SpanExporterConfig) (buffer : List OtlpTraceExportRequest) (closings : ℕ)
    (posted : List Post) (answered : List OtlpTraceExportRequest) where
  answer-Effect :
      (outcome : Option ℕ) (in_progress : Bool) (awaiting : List Flush)
      → let s = exporter_of config buffer in_progress awaiting closings posted answered in
        IsSound s → Effect (is_answered outcome) [] s (step (answer outcome) s)
  unfolding step end_flush IsSound IsAlone in_flight
  answer-Effect outcome false [] sound =
      no-Effect (is_answered outcome) _ _ sound refl refl refl refl
  answer-Effect (some status) true (f ∷ []) (bound, alone) =
      after_flush-Effect true f.closing [] _ _ (record {
        taken = f.batch;
        front = [];
        back = buffer;
        whole = append-nil _ ∙ ap (λ l. l ++ buffer) (append-nil f.batch);
        answered_taken = refl;
        flying = refl;
        kept = sym (keep_last_short 200 buffer bound);
        alone = tt;
        keeps = λ h. cc;
      })
  answer-Effect none true (f ∷ []) (bound, alone) =
      let s = exporter_of config buffer true [] closings posted answered in
      after_flush-Effect false f.closing [] _ _ (
        rw (requeue_spans-keep_last f.batch s bound) (record {
          taken = [];
          front = [];
          back = f.batch ++ buffer;
          whole = append-nil _ ∙ ap (λ l. l ++ buffer) (append-nil f.batch);
          answered_taken = sym (append-nil answered);
          flying = refl;
          kept = refl;
          alone = tt;
          keeps = λ h. refl;
        }))
  answer-Effect outcome false (f ∷ awaiting) (bound, alone) = absurd alone
  answer-Effect outcome true [] (bound, alone) = absurd alone
  answer-Effect outcome true (f ∷ g ∷ awaiting) (bound, alone) = absurd alone

close-Effect : (n : ℕ) (s : Exporter) → IsSound s → Effect false [] s (close n s)
unfolding close
close-Effect zero s sound = no-Effect false _ _ sound refl refl refl refl
close-Effect (suc n) s sound = no-Effect false _ _ sound refl refl refl refl

unfoldable pub succeeds : Event → Bool
succeeds (answer outcome) = is_answered outcome
succeeds (init_span_exporter config) = false
succeeds shutdown_span_exporter = false
succeeds flush = false
succeeds proceed_shutdown = false
succeeds (end_span request) = false

pub step-Effect :
    (e : Event) (s : Exporter) → IsSound s → Effect (succeeds e) (given e s) s (step e s)
unfolding step given succeeds
step-Effect (init_span_exporter config) s sound = no-Effect false _ _ sound refl refl refl refl
step-Effect shutdown_span_exporter s sound =
    flush_spans-Effect true s.closings s.posted s.answered s.config s.buffer s.in_progress
      s.awaiting sound
step-Effect flush s sound =
    flush_spans-Effect false s.closings s.posted s.answered s.config s.buffer s.in_progress
      s.awaiting sound
step-Effect (end_span request) s sound =
    end_span-Effect s.buffer s.in_progress s.awaiting s.closings s.posted s.answered request
      s.config sound
step-Effect proceed_shutdown s sound = close-Effect s.closings s sound
step-Effect (answer outcome) s sound =
    answer-Effect s.config s.buffer s.closings s.posted s.answered outcome s.in_progress s.awaiting
      sound
