-- ===== src/Ios/Vectors.antt =====
-- ppc/wii/ios.c, TW_IoctlvRebootIos: what happens to the caches around a call with a vector of views.
use libtwilight.Prelude.{
  ℕ, ◌+◌, ◌-◌, ◌^◌, bit_or, ◌||◌, ◌<◌, ◌≡◌, refl, ap, ap₂, ◌∙◌, arith, Bool, true, false, List, [],
  ◌∷◌, ◌++◌, length, drop, ◌==◌, if◌then◌else◌, ne→==,
}
use libtwilight.Prelude.Bits.{bit_and_mask, bit_or_concat}
use libtwilight.Ios.{
  Ios, View, Event, sync_before_read, sync_after_write, rebooted, aligned_buffer, physical, slot_of,
  sync_input, prepare, sync_outputs, reboot,
}

-- Every view lies in cached memory, above address 2^31.
abbrev pub AllCached : List View → Type 0
AllCached [] = Unit
AllCached (v ∷ vs) = (2 ^ 31 < v.data_at) × (v.data_at < 2 ^ 31 + 2 ^ 30) × AllCached vs

-- The views that are not empty, each written back or invalidated at its own address.
abbrev pub all_synced : (ℕ → ℕ → Event) → List View → List Event
all_synced event [] = []
all_synced event (v ∷ vs) =
    let rest = all_synced event vs in if v.size == 0 then rest else event v.data_at v.size ∷ rest

abbrev pub all_physical : List View → List View
all_physical [] = []
all_physical (v ∷ vs) = record v { data_at = v.data_at - 2 ^ 31 } ∷ all_physical vs

physical-cached : (x : ℕ) → 2 ^ 31 < x → x < 2 ^ 31 + 2 ^ 30 → physical x ≡ x - 2 ^ 31
unfolding physical
physical-cached x low high = bit_and_mask 30 x ∙ omega arith

-- `0x80000000 | p` undoes the mask.
bit_or-physical : (x : ℕ) → 2 ^ 31 < x → x < 2 ^ 31 + 2 ^ 30 → bit_or 0x80000000 (x - 2 ^ 31) ≡ x
bit_or-physical x low high = bit_or_concat 31 1 (x - 2 ^ 31) (omega arith) ∙ omega arith

prepare-outputs : (vs : List View) → AllCached vs → prepare 0 vs ≡ ([], all_physical vs)
unfolding prepare
prepare-outputs [] h = refl
prepare-outputs (v ∷ vs) h =
    ap₂ (λ (p : ℕ) (r : List Event × List View). (r.0, record v { data_at = p } ∷ r.1))
      (physical-cached v.data_at h.0 h.1) (prepare-outputs vs h.2)

append_if :
    (b : Bool) (e : Event) (es : List Event)
    → (if b then [] else e ∷ []) ++ es ≡ (if b then es else e ∷ es)
append_if true e es = refl
append_if false e es = refl

sync_input-append :
    (v : View) (es : List Event)
    → 2 ^ 31 < v.data_at
    → sync_input v ++ es ≡ (if v.size == 0 then es else sync_after_write v.data_at v.size ∷ es)
unfolding sync_input
sync_input-append v es h =
    let e = sync_after_write v.data_at v.size in
    ap (λ t. (if t || v.size == 0 then [] else e ∷ []) ++ es)
      (ne→== v.data_at 0 (λ z. omega (arith, z)))
    ∙ append_if (v.size == 0) e es

prepare-all :
    (inputs outputs : List View)
    → AllCached inputs
    → AllCached outputs
    → prepare (length inputs) (inputs ++ outputs)
      ≡ (all_synced sync_after_write inputs, all_physical inputs ++ all_physical outputs)
unfolding prepare
prepare-all [] outputs h k = prepare-outputs outputs k
prepare-all (v ∷ vs) outputs h k =
    let synced = all_synced sync_after_write vs in
    let views = all_physical vs ++ all_physical outputs in
    ap₂
      (λ (p : ℕ) (r : List Event × List View).
        (sync_input v ++ r.0, record v { data_at = p } ∷ r.1))
      (physical-cached v.data_at h.0 h.1) (prepare-all vs outputs h.2 k)
    ∙ ap (λ es. (es, record v { data_at = v.data_at - 2 ^ 31 } ∷ views))
        (sync_input-append v synced h.0)

sync_outputs-all :
    (vs : List View)
    → AllCached vs
    → sync_outputs (all_physical vs) ≡ all_synced sync_before_read vs
unfolding sync_outputs
sync_outputs-all [] h = refl
sync_outputs-all (v ∷ vs) h =
    let p = v.data_at - 2 ^ 31 in
    let rest = sync_outputs (all_physical vs) in
    ap
      (λ t. if t || v.size == 0 then rest else sync_before_read (bit_or 0x80000000 p) v.size ∷ rest)
      (ne→== p 0 (λ e. omega (arith, e)))
    ∙ ap₂ (λ q r. if v.size == 0 then r else sync_before_read q v.size ∷ r)
        (bit_or-physical v.data_at h.0 h.1) (sync_outputs-all vs h.2)

drop-physical : (vs ws : List View) → drop (length vs) (all_physical vs ++ ws) ≡ ws
drop-physical [] ws = refl
drop-physical (v ∷ vs) ws = drop-physical vs ws

-- `TW_IoctlvRebootIos` with views in cached memory: it writes back every input that is not empty, then submits
-- the buffer, and then invalidates every output that is not empty, each at the address that the caller gave,
-- although by then the array holds physical addresses only.
events-reboot :
    (s : Ios) (fd method : ℕ) (inputs outputs : List View) (array : ℕ)
    → AllCached inputs
    → AllCached outputs
    → let r = reboot s fd method inputs outputs array in
      (r.0.events
        ≡ s.events
          ++ all_synced sync_after_write inputs
          ++ (rebooted (aligned_buffer s.buffers (slot_of s)) ∷ [])
          ++ all_synced sync_before_read outputs)
      × (r.1 ≡ all_physical inputs ++ all_physical outputs)
unfolding reboot
events-reboot s fd method inputs outputs array h k =
    let prepared = prepare-all inputs outputs h k in
    let iob = aligned_buffer s.buffers (slot_of s) in
    let synced : sync_outputs (drop (length inputs) (prepare (length inputs) (inputs ++ outputs)).1)
        ≡ all_synced sync_before_read outputs =
      ap (λ r. sync_outputs (drop (length inputs) r.1)) prepared
      ∙ ap sync_outputs (drop-physical inputs (all_physical outputs))
      ∙ sync_outputs-all outputs k in
    (
      ap₂ (λ es fs. s.events ++ es ++ (rebooted iob ∷ []) ++ fs) (ap (λ r. r.0) prepared) synced,
      ap (λ r. r.1) prepared,
    )
