-- ===== src/Server/Stream.antt =====
-- cmd/killswitch/sse.go: the loop of GET /v1/stream, from what its select answers each time.
use cmek.Base.{
  ℕ, suc, ◌+◌, ◌≡◌, refl, arith, Bytes, List, [], ◌∷◌, Bool, true, false, if◌then◌else◌,
}

-- The client goes away, the stream reaches its age, the World stops, or a snapshot comes, with
-- whether its frame can be written.
pub data Turned : Type 0 where
  gone aged stopped : Turned
  snapshot : Bytes → Bool → Turned

-- What is written after the head of the response.
pub data Chunk : Type 0 where
  sent : (id : ℕ) → Bytes → Chunk
  reconnect : Chunk

-- The loop after `n` frames: what it writes, and whether it has returned.
unfoldable pub stream_from : ℕ → List Turned → List Chunk × Bool
stream_from n [] = ([], false)
stream_from n (Turned.gone ∷ ts) = ([], true)
stream_from n (Turned.aged ∷ ts) = (Chunk.reconnect ∷ [], true)
stream_from n (Turned.stopped ∷ ts) = ([], true)
stream_from n (Turned.snapshot b ok ∷ ts) =
    let rest = stream_from (suc n) ts in
    if ok then (Chunk.sent (suc n) b ∷ rest.0, rest.1) else ([], true)

-- Frames numbered from the one after `n` on, with at most a reconnect at the end.
abbrev pub IsNumbered : ℕ → List Chunk → Type 0
IsNumbered n [] = Unit {0}
IsNumbered n (Chunk.sent id b ∷ cs) = (id ≡ n + 1) × IsNumbered (suc n) cs
IsNumbered n (Chunk.reconnect ∷ cs) = cs ≡ []

-- Whatever comes, the frames of a stream are numbered one after the other, and nothing follows the
-- reconnect event.
pub stream_from-IsNumbered : (n : ℕ) (ts : List Turned) → IsNumbered n (stream_from n ts).0
unfolding stream_from
stream_from-IsNumbered n [] = tt
stream_from-IsNumbered n (Turned.gone ∷ ts) = tt
stream_from-IsNumbered n (Turned.aged ∷ ts) = refl
stream_from-IsNumbered n (Turned.stopped ∷ ts) = tt
stream_from-IsNumbered n (Turned.snapshot b true ∷ ts) =
    (omega arith, stream_from-IsNumbered (suc n) ts)
stream_from-IsNumbered n (Turned.snapshot b false ∷ ts) = tt
