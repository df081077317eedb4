-- ===== src/Core/Fetcher/Generate.antt =====
-- `generate` of internal/cmek/fetcher.go, and `apply` as a section of a run.
use cmek.Base.{ℕ, ◌+◌, codes, itoa, ◌++◌, [], ◌∷◌, Option, none, some}
use cmek.Kms.Errors.{GoErr, Sentinel}
use cmek.Core.Types.{Config, Dek, Tenant, Outcome, Op, WrappedDek}
use cmek.Core.Apply.{apply}
use cmek.Core.Run.{M, ◌>>=◌, ◌>>◌, return, ask, locked, clock}
use cmek.Core.Fetcher.Call.{call}

-- `apply` reads the clock and the jitter, then takes the lock.
unfoldable pub apply_section :
    Config → ℕ → ℕ → Op → Option Dek → Outcome → Tenant → Unit {0} × Tenant
apply_section c now u op d r t = (tt, apply c now u op d r t)

unfoldable pub apply_result : Config → Op → Option Dek → Outcome → M (Unit {0})
unfolding clock ask locked apply_section
apply_result c op d r = do
  now ← clock
  u ← ask (λ e n. e.draw n)
  locked (apply_section c now u op d r)

-- A new data key from a generate's outcome: "<tenant>/<seq+1>".
unfoldable pub allocate : ℕ → Outcome → Tenant → (Dek × WrappedDek) × Tenant
allocate now r t =
    let n = t.seq + 1 in
    let id = t.id ++ (codes "/" ++ itoa n) in
    let d : Dek = record {
      id = id;
      wrapped = r.wrapped;
      kek_version = 1;
      prim = none;
      msgs = 0;
      created_at = now;
      hot_since = 0;
    } in
    let w : WrappedDek = record {
      id = id;
      tenant = t.id;
      kek_id = t.kek_id;
      kek_version = 1;
      wrapped = r.wrapped;
      created_at = now;
    } in
    ((d, w), record t { seq = n })

abbrev pub store_error : GoErr → GoErr
store_error e = record {
  chain = Sentinel.store ∷ [];
  typed = none;
  text = codes "cmek: dek store" ++ (codes ": " ++ e.text);
}

unfoldable pub finish_generate : Config → Dek → Outcome → Option GoErr → M (Option Dek × Outcome)
unfolding apply_result return
finish_generate c d r none = do apply_result c Op.generate (some d) r; return (some d, r)
finish_generate c d r (some e) = do
  let r' : Outcome = record r { err = some (store_error e) }
  apply_result c Op.generate (some d) r'
  return (none, r')

unfoldable pub store_new : Config → Outcome → M (Option Dek × Outcome)
unfolding finish_generate
store_new c r = do
  now ← clock
  (d, w) ← locked (allocate now r)
  failed ← ask (λ e n. e.put_dek n)
  finish_generate c d r failed

unfoldable pub generate_from : Config → Outcome → Option GoErr → M (Option Dek × Outcome)
unfolding store_new apply_result return
generate_from c r (some e) = do apply_result c Op.generate none r; return (none, r)
generate_from c r none = store_new c r

unfoldable pub generate : Config → M (Option Dek × Outcome)
unfolding call generate_from
generate c = do r ← call c; generate_from c r r.err
