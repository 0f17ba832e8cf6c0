-- ===== src/Compress/Wire.antt =====
-- The bytes between the two ends: a frame for each block.
use wanopt_proxy.Common.{ℕ, ◌≤◌, ◌≡◌, ◌⊎◌, List, [], ◌∷◌, ◌++◌, length, Sink}
use wanopt_proxy.Compress.Encoder.{Codec, frame, block_size, marker_raw, marker_flate}

-- A writer that does not fail, with what it has taken.
abbrev pub clean : List ℕ → Sink
clean old = record { taken = old; plan = [] }

abbrev pub concat : List (List ℕ) → List ℕ
concat [] = []
concat (b ∷ bs) = b ++ concat bs

-- The block as it is, or its encoding within the size of a block.
abbrev pub IsCoded : Codec → List ℕ → ℕ → List ℕ → Type 0
IsCoded c b mode payload =
    ((mode ≡ marker_raw) × (payload ≡ b))
    ⊎ ((mode ≡ marker_flate) × (payload ≡ c.deflate b) × (length payload ≤ block_size))

abbrev pub IsBlock : List ℕ → Type 0
IsBlock b = (1 ≤ length b) × (length b ≤ block_size)

-- `w` is the blocks `bs` in frames, one after the other.
abbrev pub Wire : Codec → List (List ℕ) → List ℕ → Type 0
Wire c [] w = w ≡ []
Wire c (b ∷ bs) w =
    (mode : ℕ) × (payload : List ℕ) × (rest : List ℕ) × (w ≡ frame mode (length b) payload ++ rest)
    × IsBlock b
    × IsCoded c b mode payload
    × Wire c bs rest
