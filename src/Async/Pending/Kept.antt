-- ===== src/Async/Pending/Kept.antt =====
-- What getPendingAsyncCalls of vmhost/hostCore/asyncCall.go keeps.
use wasm_vm_v.Prelude.{
  ◌≡◌, refl, ap, Option, none, some, List, [], ◌∷◌, ◌++◌, Bytes, bytes_eq, bytes_equal,
  bytes_equal_iff, arith, false, if◌then◌else◌, Bool, true, ◌≢◌, ◌↔◌,
}
use wasm_vm_v.Prelude.Map.{Map, lookup, Distinct}
use wasm_vm_v.Host.{
  AsyncCallStatus, async_call_pending, AsyncContext, AsyncContextInfo, AsyncGeneratedCall,
}
use wasm_vm_v.Async.Gas.{all_calls}
use wasm_vm_v.Async.Pending.{
  is_pending, pending_calls, put_context, pending_contexts, get_pending_async_calls,
}

-- The second list is the first without the calls that are not pending.
pub data PendingOf : List AsyncGeneratedCall → List AsyncGeneratedCall → Type 0 where
  nothing : PendingOf [] []
  kept :
      {call : AsyncGeneratedCall} {calls pending : List AsyncGeneratedCall}
      → call.status ≡ async_call_pending
      → PendingOf calls pending
      → PendingOf (call ∷ calls) (call ∷ pending)
  dropped :
      {call : AsyncGeneratedCall} {calls pending : List AsyncGeneratedCall}
      → call.status ≢ async_call_pending
      → PendingOf calls pending
      → PendingOf (call ∷ calls) pending

is_pending_iff :
    (status : AsyncCallStatus) → (is_pending status ≡ true) ↔ (status ≡ async_call_pending)
is_pending_iff status = ground arith

PendingOf-if :
    (b : Bool) (call : AsyncGeneratedCall) {calls pending : List AsyncGeneratedCall}
    → is_pending call.status ≡ b
    → PendingOf calls pending
    → PendingOf (call ∷ calls) (if b then call ∷ pending else pending)
PendingOf-if true call is p = kept (ground (arith, is)) p
PendingOf-if false call is p = dropped (ground (arith, is)) p

pending_calls-PendingOf : (calls : List AsyncGeneratedCall) → PendingOf calls (pending_calls calls)
unfolding pending_calls
pending_calls-PendingOf [] = nothing
pending_calls-PendingOf (call ∷ calls) =
    PendingOf-if (is_pending call.status) call refl (pending_calls-PendingOf calls)

pending_calls-append :
    (xs ys : List AsyncGeneratedCall)
    → pending_calls (xs ++ ys) ≡ pending_calls xs ++ pending_calls ys
unfolding pending_calls
pending_calls-append [] ys = refl
pending_calls-append (x ∷ xs) ys = ground (arith, pending_calls-append xs ys)

pending_calls_idem :
    (xs : List AsyncGeneratedCall) → pending_calls (pending_calls xs) ≡ pending_calls xs
unfolding pending_calls
pending_calls_idem [] = refl
pending_calls_idem (x ∷ xs) = ground (arith, pending_calls_idem xs)

all_calls-put_context :
    (identifier : Bytes) (context : AsyncContext) (calls : List AsyncGeneratedCall)
    (contexts : Map Bytes AsyncContext)
    → all_calls (put_context identifier context calls contexts) ≡ calls ++ all_calls contexts
all_calls-put_context identifier context [] contexts = refl
all_calls-put_context identifier context (call ∷ calls) contexts = refl

all_calls-pending_contexts :
    (contexts : Map Bytes AsyncContext)
    → all_calls (pending_contexts contexts) ≡ pending_calls (all_calls contexts)
unfolding pending_contexts
all_calls-pending_contexts [] = unfold pending_calls in refl
all_calls-pending_contexts ((identifier, context) ∷ contexts) = cc (
  all_calls-put_context identifier context (pending_calls context.async_calls)
      (pending_contexts contexts),
  all_calls-pending_contexts contexts,
  pending_calls-append context.async_calls (all_calls contexts),
)

-- A context without its calls that are not pending, if one is left.
abbrev pub still_pending : AsyncContext → List AsyncGeneratedCall → Option AsyncContext
still_pending context [] = none
still_pending context (call ∷ calls) = some (record context { async_calls = call ∷ calls })

lookup-put_context :
    (k identifier : Bytes) (context : AsyncContext) (calls : List AsyncGeneratedCall)
    (contexts : Map Bytes AsyncContext)
    → lookup identifier contexts ≡ none
    → lookup k (put_context identifier context calls contexts)
      ≡ (if bytes_equal identifier k then still_pending context calls else lookup k contexts)
lookup-put_context k identifier context [] contexts absent =
    ground (arith, bytes_equal_iff identifier k)
lookup-put_context k identifier context (call ∷ calls) contexts absent = refl

lookup-put_other :
    (k identifier : Bytes) (context : AsyncContext) (calls : List AsyncGeneratedCall)
    (contexts : Map Bytes AsyncContext)
    → bytes_equal identifier k ≡ false
    → lookup k (put_context identifier context calls contexts) ≡ lookup k contexts
lookup-put_other k identifier context [] contexts other = refl
lookup-put_other k identifier context (call ∷ calls) contexts other = ground (arith, other)

absent_pending :
    (k : Bytes) (contexts : Map Bytes AsyncContext)
    → lookup k contexts ≡ none
    → lookup k (pending_contexts contexts) ≡ none
unfolding pending_contexts
absent_pending k [] absent = refl
absent_pending k ((identifier, context) ∷ contexts) absent = ground (
  arith,
  absent,
  lookup-put_other k identifier context (pending_calls context.async_calls)
      (pending_contexts contexts),
  absent_pending k contexts,
)

abbrev pub pending_at : Bytes → Map Bytes AsyncContext → Option AsyncContext
pending_at k contexts = elim (lookup k contexts) [
  | none ↦ none
  | some context ↦ still_pending context (pending_calls context.async_calls)
]

lookup-pending_contexts :
    (k : Bytes) (contexts : Map Bytes AsyncContext)
    → Distinct contexts
    → lookup k (pending_contexts contexts) ≡ pending_at k contexts
unfolding pending_contexts
lookup-pending_contexts k [] distinct = refl
lookup-pending_contexts k ((identifier, context) ∷ contexts) distinct = ground (
  arith,
  lookup-put_context k identifier context (pending_calls context.async_calls)
      (pending_contexts contexts) (absent_pending identifier contexts distinct.0),
  lookup-pending_contexts k contexts distinct.1,
)

pending-put_context :
    (identifier : Bytes) (context : AsyncContext) (calls : List AsyncGeneratedCall)
    (contexts : Map Bytes AsyncContext)
    → pending_calls calls ≡ calls
    → pending_contexts contexts ≡ contexts
    → pending_contexts (put_context identifier context calls contexts)
      ≡ put_context identifier context calls contexts
unfolding pending_contexts
pending-put_context identifier context [] contexts p q = q
pending-put_context identifier context (call ∷ calls) contexts p q = rw (p, q) refl

pending_contexts_idem :
    (contexts : Map Bytes AsyncContext)
    → pending_contexts (pending_contexts contexts) ≡ pending_contexts contexts
unfolding pending_contexts
pending_contexts_idem [] = refl
pending_contexts_idem ((identifier, context) ∷ contexts) =
    pending-put_context identifier context (pending_calls context.async_calls)
      (pending_contexts contexts) (pending_calls_idem context.async_calls)
      (pending_contexts_idem contexts)

-- getPendingAsyncCalls keeps the pending calls, all of them and no others, in their order and each
-- under its context, drops a context that has none, and changes nothing when it is asked again.
pub get_pending_async_calls_lem :
    (info : AsyncContextInfo)
    → Distinct info.async_context_map
    → let pending = get_pending_async_calls info in
      PendingOf (all_calls info.async_context_map) (all_calls pending.async_context_map)
      × ((k : Bytes) → lookup k pending.async_context_map ≡ pending_at k info.async_context_map)
      × (get_pending_async_calls pending ≡ pending)
unfolding get_pending_async_calls
get_pending_async_calls_lem info distinct = (
  rw (all_calls-pending_contexts info.async_context_map)
      (pending_calls-PendingOf (all_calls info.async_context_map)),
  λ k. lookup-pending_contexts k info.async_context_map distinct,
  ap (λ (contexts : Map Bytes AsyncContext). record info { async_context_map = contexts })
      (pending_contexts_idem info.async_context_map),
)
