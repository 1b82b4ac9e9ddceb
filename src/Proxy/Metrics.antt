-- ===== src/Proxy/Metrics.antt =====
-- The metrics of src/proxy_wasm.c: proxy_define_metric, proxy_increment_metric, proxy_record_metric and
-- proxy_get_metric. A call holds the lock of the store while it reads or changes it.
pub mod Names
use vmod_wasm.Base.{
  ℕ, zero, suc, ◌+◌, ◌-◌, ◌/◌, ◌%◌, ◌^◌, Bool, true, false, not, ◌||◌, List, [], ◌∷◌, ◌++◌, Option,
  none, some, ltb, leb, ◌==◌, if◌then◌else◌, length, get_elem?, set, Bytes, bytes_eq,
}
use vmod_wasm.Memory.{
  Guest, validate_region, copy_to, read_string, word_bytes, Answer, returned, failed, overrun,
  write_u32,
}
use vmod_wasm.Headers.Calls.{Status, proxy_ok, proxy_bad_argument, proxy_internal, undefined}

-- `kind` is the number that a guest gives as the type.
pub record Metric : Type 0 where
  pub name : Bytes
  pub kind : ℕ
  pub value : ℕ

-- The first `count` metrics of the store; none where there is no store.
pub record MetricCtx : Type 0 where
  pub guest : Guest
  pub store : Option (List Metric)

abbrev pub max_metrics : ℕ
max_metrics = 256

-- The size of a name with its NUL.
abbrev pub metric_max_name : ℕ
metric_max_name = 128

-- The loop over the metrics from `i` on: the number of the first one with the name.
unfoldable pub find_metric : Bytes → ℕ → List Metric → Option ℕ
find_metric name i [] = none
find_metric name i (m ∷ ms) =
    let rest = find_metric name (i + 1) ms in if bytes_eq m.name name then some i else rest

abbrev pub answer_id : MetricCtx → Guest × Answer → MetricCtx × Status
answer_id ctx (g, returned) = (record ctx { guest = g }, proxy_ok)
answer_id ctx (g, failed) = (record ctx { guest = g }, proxy_internal)
answer_id ctx (g, overrun) = (record ctx { guest = g }, undefined)

abbrev pub new_metric : ℕ → Bytes → Metric
new_metric kind name = record { name = name; kind = kind; value = 0 }

abbrev pub define_in : MetricCtx → List Metric → ℕ → Bytes → ℕ → MetricCtx × Status
define_in ctx ms kind name ret = elim (find_metric name 0 ms) [
  | some i ↦ answer_id ctx (write_u32 ctx.guest ret (i + 1))
  | none ↦
      if leb max_metrics (length ms)
      then (ctx, proxy_internal)
      else answer_id (record ctx { store = some (ms ++ new_metric kind name ∷ []) })
          (write_u32 ctx.guest ret (length ms + 1))
]

pub define_metric : MetricCtx → ℕ → ℕ → ℕ → ℕ → MetricCtx × Status
define_metric ctx kind name_ptr name_size ret = elim ctx.store [
  | none ↦ (ctx, proxy_internal)
  | some ms ↦ elim (read_string ctx.guest name_ptr name_size metric_max_name) [
    | none ↦ (ctx, proxy_bad_argument)
    | some name ↦ define_in ctx ms kind name ret
  ]
]

-- The metric with an identifier, which counts from 1.
abbrev pub metric_at : List Metric → ℕ → Option Metric
metric_at ms id = if id == 0 || ltb (length ms) id then none else get_elem? ms (id - 1)

-- `offset` is an `int64_t` in two's complement; a fall below 0 stops there.
pub incremented : ℕ → ℕ → ℕ
incremented value offset =
    if ltb offset (2 ^ 63)
    then (value + offset) % 2 ^ 64
    else if leb (2 ^ 64 - offset) value
    then value - (2 ^ 64 - offset)
    else 0

abbrev pub write_value : List Metric → ℕ → Metric → ℕ → List Metric
write_value ms id m v = set ms (id - 1) (record m { value = v })

pub increment_metric : MetricCtx → ℕ → ℕ → MetricCtx × Status
increment_metric ctx id offset = elim ctx.store [
  | none ↦ (ctx, proxy_internal)
  | some ms ↦ elim (metric_at ms id) [
    | none ↦ (ctx, proxy_bad_argument)
    | some m ↦
        (record ctx { store = some (write_value ms id m (incremented m.value offset)) }, proxy_ok)
  ]
]

pub record_metric : MetricCtx → ℕ → ℕ → MetricCtx × Status
record_metric ctx id value = elim ctx.store [
  | none ↦ (ctx, proxy_internal)
  | some ms ↦ elim (metric_at ms id) [
    | none ↦ (ctx, proxy_bad_argument)
    | some m ↦ (record ctx { store = some (write_value ms id m value) }, proxy_ok)
  ]
]

-- The eight bytes of a value, the lowest first.
abbrev pub long_bytes : ℕ → Bytes
long_bytes v = word_bytes (v % 2 ^ 32) ++ word_bytes (v / 2 ^ 32)

abbrev pub put_value : MetricCtx → ℕ → Bytes → Option Bytes → MetricCtx × Status
put_value ctx ret value none = (ctx, proxy_bad_argument)
put_value ctx ret value (some memory) =
    (record ctx { guest = record ctx.guest { memory = some (copy_to memory ret value) } }, proxy_ok)

pub get_metric : MetricCtx → ℕ → ℕ → MetricCtx × Status
get_metric ctx id ret = elim ctx.store [
  | none ↦ (ctx, proxy_internal)
  | some ms ↦ elim (metric_at ms id) [
    | none ↦ (ctx, proxy_bad_argument)
    | some m ↦
        if not (validate_region ctx.guest.memory ret 8)
        then (ctx, proxy_bad_argument)
        else put_value ctx ret (long_bytes m.value) ctx.guest.memory
  ]
]

-- A guest's calls.
pub data MetricCall : Type 0 where
  call_define : ℕ → ℕ → ℕ → ℕ → MetricCall
  call_increment : ℕ → ℕ → MetricCall
  call_record : ℕ → ℕ → MetricCall
  call_get : ℕ → ℕ → MetricCall

abbrev pub metric_call : MetricCtx → MetricCall → MetricCtx × Status
metric_call ctx (call_define kind ptr size ret) = define_metric ctx kind ptr size ret
metric_call ctx (call_increment id offset) = increment_metric ctx id offset
metric_call ctx (call_record id value) = record_metric ctx id value
metric_call ctx (call_get id ret) = get_metric ctx id ret

pub metric_calls : MetricCtx → List MetricCall → MetricCtx
metric_calls ctx [] = ctx
metric_calls ctx (c ∷ cs) = metric_calls (metric_call ctx c).0 cs
