-- ===== src/Proxy/Metrics/Names.antt =====
-- What the calls do to the table of metrics, as a step relation, and what every step keeps.
use mathlib.Core.Option.{some-injective}
use vmod_wasm.Base.{
  ℕ, zero, suc, ◌+◌, ◌-◌, ◌≡◌, ◌⊎◌, ◌≤◌, ◌<◌, refl, sym, ap, ◌∙◌, inl, inr, arith, ◌||◌, List, [],
  ◌∷◌, ◌++◌, Option, none, some, Option-cases, ltb, leb, ◌==◌, if◌then◌else◌, Bool-cases, length,
  length-append, get_elem?, set, Bytes, bytes_eq, bytes_eq_refl,
}
use vmod_wasm.Memory.{
  Guest, read_string, validate_region, Answer, returned, failed, overrun, write_u32,
}
use vmod_wasm.Proxy.Metrics.{
  Metric, MetricCtx, max_metrics, metric_max_name, find_metric, answer_id, new_metric, define_in,
  define_metric, metric_at, incremented, increment_metric, record_metric, long_bytes, put_value,
  get_metric, MetricCall, call_define, call_increment, call_record, call_get, metric_call,
  metric_calls,
}

-- One call leaves the table, changes the value of one metric, or adds a metric with a new name.
pub data Step : List Metric → List Metric → Type 0 where
  stay : (ms : List Metric) → Step ms ms
  write :
      (ms : List Metric) (k : ℕ) (m : Metric) (v : ℕ)
      → get_elem? ms k ≡ some m
      → Step ms (set ms k (record m { value = v }))
  add :
      (ms : List Metric) (kind : ℕ) (name : Bytes)
      → find_metric name 0 ms ≡ none
      → length ms < max_metrics
      → Step ms (ms ++ new_metric kind name ∷ [])

abbrev pub table : MetricCtx → List Metric
table ctx = elim ctx.store [ none ↦ [] | some ms ↦ ms ]

find_metric-set :
    (name : Bytes) (j k v : ℕ) (ms : List Metric) (m : Metric)
    → get_elem? ms k ≡ some m
    → find_metric name j (set ms k (record m { value = v })) ≡ find_metric name j ms
unfolding find_metric
find_metric-set name j k v [] m e = refl
find_metric-set name j zero v (x ∷ ms) m e =
    let same : x.name ≡ m.name = ap (λ y. y.name) (some-injective _ _ e) in rw same refl
find_metric-set name j (suc k) v (x ∷ ms) m e =
    ap (λ rest. if bytes_eq x.name name then some j else rest)
      (find_metric-set name (j + 1) k v ms m e)

find_metric-append :
    (name : Bytes) (j i : ℕ) (ms new : List Metric)
    → find_metric name j ms ≡ some i
    → find_metric name j (ms ++ new) ≡ some i
unfolding find_metric
find_metric-append name j i [] new e = absurd (ground arith)
find_metric-append name j i (x ∷ ms) new e = elim (Bool-cases (bytes_eq x.name name)) [
  | inl hit ↦ rw hit (rw hit at e)
  | inr miss ↦ rw miss (find_metric-append name (j + 1) i ms new (rw miss at e))
]

Step-find_metric :
    {ms ms2 : List Metric} (name : Bytes) (i : ℕ)
    → Step ms ms2
    → find_metric name 0 ms ≡ some i
    → find_metric name 0 ms2 ≡ some i
Step-find_metric name i (stay ms) e = e
Step-find_metric name i (write ms k m v there) e = find_metric-set name 0 k v ms m there ∙ e
Step-find_metric name i (add ms kind name2 new room) e = find_metric-append name 0 i ms _ e

metric_at-get_elem? :
    (ms : List Metric) (id : ℕ) (m : Metric)
    → metric_at ms id ≡ some m
    → get_elem? ms (id - 1) ≡ some m
metric_at-get_elem? ms id m e = elim (Bool-cases (id == 0 || ltb (length ms) id)) [
  | inl bad ↦ let e2 = rw bad at e in absurd (ground arith)
  | inr good ↦ rw good at e
]

answer_id-store : (ctx : MetricCtx) (r : Guest × Answer) → (answer_id ctx r).0.store ≡ ctx.store
answer_id-store ctx (g, returned) = refl
answer_id-store ctx (g, failed) = refl
answer_id-store ctx (g, overrun) = refl

stays : (ctx ctx2 : MetricCtx) → ctx2.store ≡ ctx.store → Step (table ctx) (table ctx2)
stays ctx ctx2 e = rw e (stay (table ctx))

adds :
    (g : Guest) (ms : List Metric) (kind : ℕ) (name : Bytes) (r : Guest × Answer)
    → find_metric name 0 ms ≡ none
    → length ms < max_metrics
    → Step ms (
        table
          (answer_id (record { guest = g; store = some (ms ++ new_metric kind name ∷ []) }) r).0)
adds g ms kind name r fresh room =
    rw
      (
        answer_id-store (record { guest = g; store = some (ms ++ new_metric kind name ∷ []) }) r,
        table,
      )
      (add ms kind name fresh room)

define_in-Step :
    (g : Guest) (ms : List Metric) (kind : ℕ) (name : Bytes) (ret : ℕ)
    → Step ms (table (define_in (record { guest = g; store = some ms }) ms kind name ret).0)
define_in-Step g ms kind name ret = elim (Option-cases (find_metric name 0 ms)) [
  | inr (i, e) ↦
      rw (e, define_in)
        (stays (record { guest = g; store = some ms })
          (answer_id (record { guest = g; store = some ms }) (write_u32 g ret (i + 1))).0
          (answer_id-store (record { guest = g; store = some ms }) (write_u32 g ret (i + 1))))
  | inl fresh ↦ elim (Bool-cases (leb max_metrics (length ms))) [
    | inl full ↦ rw (fresh, full, define_in) (stay ms)
    | inr room ↦
        rw (fresh, room, define_in)
          (adds g ms kind name (write_u32 g ret (length ms + 1)) fresh (ground arith))
  ]
]

put_value-store :
    (ctx : MetricCtx) (ret : ℕ) (value : Bytes) (memory : Option Bytes)
    → (put_value ctx ret value memory).0.store ≡ ctx.store
put_value-store ctx ret value none = refl
put_value-store ctx ret value (some m) = refl

call-Step :
    (g : Guest) (store : Option (List Metric)) (c : MetricCall)
    → Step
        (table (record { guest = g; store = store }))
        (table (metric_call (record { guest = g; store = store }) c).0)
unfolding define_metric increment_metric record_metric get_metric
call-Step g none (call_define kind ptr size ret) = stay []
call-Step g none (call_increment id offset) = stay []
call-Step g none (call_record id value) = stay []
call-Step g none (call_get id ret) = stay []
call-Step g (some ms) (call_define kind ptr size ret) =
    elim (Option-cases (read_string g ptr size metric_max_name)) [
      | inl bad ↦ rw (bad, define_metric, table) (stay ms)
      | inr (name, e) ↦ rw (e, define_metric, table) (define_in-Step g ms kind name ret)
    ]
call-Step g (some ms) (call_increment id offset) = elim (Option-cases (metric_at ms id)) [
  | inl bad ↦ rw (bad, increment_metric, table) (stay ms)
  | inr (m, e) ↦
      rw (e, increment_metric, table)
        (write ms (id - 1) m (incremented m.value offset) (metric_at-get_elem? ms id m e))
]
call-Step g (some ms) (call_record id value) = elim (Option-cases (metric_at ms id)) [
  | inl bad ↦ rw (bad, record_metric, table) (stay ms)
  | inr (m, e) ↦
      rw (e, record_metric, table) (write ms (id - 1) m value (metric_at-get_elem? ms id m e))
]
call-Step g (some ms) (call_get id ret) = elim (Option-cases (metric_at ms id)) [
  | inl bad ↦ rw (bad, get_metric, table) (stay ms)
  | inr (m, e) ↦ elim (Bool-cases (validate_region g.memory ret 8)) [
    | inl good ↦
        rw (e, good, get_metric, table)
          (stays (record { guest = g; store = some ms })
            (put_value (record { guest = g; store = some ms }) ret (long_bytes m.value) g.memory).0
            (put_value-store (record { guest = g; store = some ms }) ret (long_bytes m.value)
              g.memory))
    | inr bad ↦ rw (e, bad, get_metric, table) (stay ms)
  ]
]

metric_call-Step :
    (ctx : MetricCtx) (c : MetricCall) → Step (table ctx) (table (metric_call ctx c).0)
metric_call-Step ctx c = call-Step ctx.guest ctx.store c

-- Once a name has a metric, it keeps its identifier for good, whatever metric calls follow.
pub metric_calls-find_metric :
    (ctx : MetricCtx) (cs : List MetricCall) (name : Bytes) (i : ℕ)
    → find_metric name 0 (table ctx) ≡ some i
    → find_metric name 0 (table (metric_calls ctx cs)) ≡ some i
unfolding metric_calls
metric_calls-find_metric ctx [] name i e = e
metric_calls-find_metric ctx (c ∷ cs) name i e =
    metric_calls-find_metric (metric_call ctx c).0 cs name i
      (Step-find_metric name i (metric_call-Step ctx c) e)

-- No two metrics have one name, and the table has room for all of them.
pub record IsValid (ms : List Metric) : Type 0 where
  pub own_id : (i : ℕ) (m : Metric) → get_elem? ms i ≡ some m → find_metric m.name 0 ms ≡ some i
  pub has_room : length ms ≤ max_metrics

find_metric-new :
    (name : Bytes) (j kind : ℕ) (ms : List Metric)
    → find_metric name j ms ≡ none
    → find_metric name j (ms ++ new_metric kind name ∷ []) ≡ some (j + length ms)
unfolding find_metric
find_metric-new name j kind [] e =
    let hit = bytes_eq_refl name in let n : j + 0 ≡ j = omega arith in rw (hit, n) refl
find_metric-new name j kind (x ∷ ms) e = elim (Bool-cases (bytes_eq x.name name)) [
  | inl hit ↦ let e2 = rw hit at e in absurd (ground arith)
  | inr miss ↦
      let n : j + suc (length ms) ≡ j + 1 + length ms = omega arith in
      rw (miss, n) (find_metric-new name (j + 1) kind ms (rw miss at e))
]

-- An entry of an appended table stands in the table, or is the new one.
get_elem?-append :
    (ms : List Metric) (x m : Metric) (i : ℕ)
    → get_elem? (ms ++ x ∷ []) i ≡ some m
    → (get_elem? ms i ≡ some m) ⊎ ((i ≡ length ms) × (m ≡ x))
get_elem?-append [] x m zero e = inr (refl, sym (some-injective _ _ e))
get_elem?-append [] x m (suc i) e = absurd (ground arith)
get_elem?-append (y ∷ ms) x m zero e = inl e
get_elem?-append (y ∷ ms) x m (suc i) e = elim (get_elem?-append ms x m i e) [
  | inl there ↦ inl there
  | inr (at, same) ↦ inr (ap suc at, same)
]

-- An entry of a written table has the name of the entry that stood there.
get_elem?-set :
    (ms : List Metric) (k i v : ℕ) (old m : Metric)
    → get_elem? ms k ≡ some old
    → get_elem? (set ms k (record old { value = v })) i ≡ some m
    → (x : Metric) × (get_elem? ms i ≡ some x) × (x.name ≡ m.name)
get_elem?-set [] k i v old m there e = absurd (ground arith)
get_elem?-set (y ∷ ms) zero zero v old m there e =
    (y, refl, ap (λ z. z.name) (some-injective _ _ there) ∙ ap (λ z. z.name) (some-injective _ _ e))
get_elem?-set (y ∷ ms) zero (suc i) v old m there e = (m, e, refl)
get_elem?-set (y ∷ ms) (suc k) zero v old m there e = (m, e, refl)
get_elem?-set (y ∷ ms) (suc k) (suc i) v old m there e = get_elem?-set ms k i v old m there e

length-set : (ms : List Metric) (k : ℕ) (m : Metric) → length (set ms k m) ≡ length ms
length-set [] k m = refl
length-set (y ∷ ms) zero m = refl
length-set (y ∷ ms) (suc k) m = ap suc (length-set ms k m)

Step-IsValid : {ms ms2 : List Metric} → Step ms ms2 → IsValid ms → IsValid ms2
Step-IsValid (stay ms) ok = ok
Step-IsValid (write ms k old v there) ok = record {
  own_id = λ i m e.
      let (x, at, same) = get_elem?-set ms k i v old m there e in
      find_metric-set m.name 0 k v ms old there
      ∙ (ap (λ n. find_metric n 0 ms) (sym same) ∙ ok.own_id i x at);
  has_room =
      let l = length-set ms k (record old { value = v }) in let r = ok.has_room in omega arith;
}
Step-IsValid (add ms kind name fresh room) ok = record {
  own_id = λ i m e. elim (get_elem?-append ms (new_metric kind name) m i e) [
    | inl at ↦ find_metric-append m.name 0 i ms _ (ok.own_id i m at)
    | inr (at, same) ↦
        let n : m.name ≡ name = ap (λ z. z.name) same in
        rw (n, at) (find_metric-new name 0 kind ms fresh ∙ ap some (omega arith))
  ];
  has_room = let l = length-append ms (new_metric kind name ∷ []) in omega arith;
}

-- Whatever metric calls are made, in whatever order: no two metrics have one name, so that every
-- metric is found under its own identifier, and there are at most 256, if this is so at the start.
pub metric_calls-IsValid :
    (ctx : MetricCtx) (cs : List MetricCall)
    → IsValid (table ctx)
    → IsValid (table (metric_calls ctx cs))
unfolding metric_calls
metric_calls-IsValid ctx [] ok = ok
metric_calls-IsValid ctx (c ∷ cs) ok =
    metric_calls-IsValid (metric_call ctx c).0 cs (Step-IsValid (metric_call-Step ctx c) ok)
