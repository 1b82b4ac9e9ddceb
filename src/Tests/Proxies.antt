-- ===== src/Tests/Proxies.antt =====
-- Metrics and bodies of a guest with a memory of sixteen bytes.
use vmod_wasm.Base.{◌≡◌, refl, arith, [], ◌∷◌, ◌++◌, none, some, true, replicate, codes}
use vmod_wasm.Memory.{Guest, validate_region}
use vmod_wasm.Headers.Calls.{proxy_ok}
use vmod_wasm.Proxy.Metrics.{
  MetricCtx, call_define, call_record, call_get, metric_calls, new_metric,
}
use vmod_wasm.Proxy.Metrics.Names.{IsValid, table, metric_calls-IsValid}
use vmod_wasm.Proxy.Bodies.{BodyCtx, http_request_body, set_buffer_bytes}
use vmod_wasm.Proxy.Bodies.Splices.{body_text, splice, set_buffer_bytes-splice}

abbrev guest : Guest
guest = record { memory = some (codes "hitsmiss" ++ replicate 8 0); allocator = none }

abbrev counters : MetricCtx
counters = record { guest = guest; store = some (new_metric 0 (codes "hits") ∷ []) }

abbrev no_metrics : MetricCtx
no_metrics = record { guest = guest; store = some [] }

metric_calls-IsValid_example : IsValid (
    table (
      metric_calls no_metrics
        (call_define 0 0 4 8 ∷ call_define 0 4 4 8 ∷ call_record 2 7 ∷ call_get 2 8 ∷ [])))
metric_calls-IsValid_example =
    metric_calls-IsValid no_metrics
      (call_define 0 0 4 8 ∷ call_define 0 4 4 8 ∷ call_record 2 7 ∷ call_get 2 8 ∷ [])
      (record { own_id = λ i m e. absurd (ground arith); has_room = omega arith })

abbrev bodies : BodyCtx
bodies = record {
  guest = guest;
  vm_config = none;
  plugin_config = none;
  call_body = none;
  request_body = some (codes "a cache miss");
  response_body = some (codes "page");
  modified = none;
}

set_buffer_bytes-splice_example :
    ((set_buffer_bytes true bodies http_request_body 8 100 0 4).1 ≡ proxy_ok)
    × (body_text (set_buffer_bytes true bodies http_request_body 8 100 0 4).0 http_request_body
        ≡ splice 8 100 (codes "hits") (body_text bodies http_request_body))
unfolding validate_region
set_buffer_bytes-splice_example =
    set_buffer_bytes-splice bodies http_request_body 8 100 0 4 (codes "hits") tt refl (omega arith)
