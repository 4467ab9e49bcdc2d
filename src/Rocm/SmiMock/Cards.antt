-- ===== src/Rocm/SmiMock/Cards.antt =====
-- operators/fake-rocm-gpu-operator/cmd/rocm-smi-mock/main.go: what the mock prints of a node, beside
-- what the metrics exporter says of it.
use text.Mathlib.TextLemmas.{tail-eq_of_cons-eq as tail}
use sims.Prelude.{
  ℕ, ◌*◌, String, List, [], ◌∷◌, some, map, range, ◌≡◌, refl, ◌∙◌, ap, sym, arith, In, Distinct,
  All, inl, inr, ◌==◌, map-concat_map, eq_iff, Bool-cases, ◌⊎◌, some_inj, true, false,
}
use sims.Prelude.Int.{ℤ, pos, negsuc}
use sims.Prelude.Float.{Float64}
use sims.Prelude.Maps.{Map, lookup, insert, lookup-insert, lookup-insert_self}
use sims.Text.{append}
use sims.Rocm.Simulate.{Gpu, gpu_id, build_gpus, effective_mode, effective_count}
use sims.Rocm.Partitions.{ids-build_gpus}
use sims.Rocm.DevicePlugin.Devices.{ids_Distinct}
use sims.Rocm.SmiMock.{CardInfo, build_cards, count_of, card_key, card_fields, add_cards, json_doc}

module _ (fl : Float64) where
  -- What the mock and the exporter both say of a GPU: its name, product, memory and partition.
  abbrev pub Shown : Type 0
  Shown = String × String × ℤ × String × String

  abbrev pub card_shown : CardInfo fl → Shown
  card_shown c = (gpu_id c.index, c.product, c.vram_total_b, c.partition_mode, c.partition_id)

  abbrev pub gpu_shown : Gpu → Shown
  gpu_shown g = (g.id, g.card_model, g.memory_total, g.partition_mode, g.partition_id)

  count_agrees : (mode : String) (count : ℤ) → count_of fl mode count ≡ effective_count mode count
  unfolding effective_count
  count_agrees mode count = elim (Bool-cases (mode == "cpx")) [
    | inl cpx ↦ rw cpx (ground arith)
    | inr spx ↦ rw spx refl
  ]

  -- On a node of the same settings, with a number of cards that is not negative, the mock prints the
  -- GPUs that the metrics exporter reports: as many, in the same order, with the same numbers,
  -- products, memories, partition modes and partition ids.
  pub mock_and_exporter_agree :
      (hostname product : String) (memory : ℤ) (physical : ℕ) (mode : String) (count : ℤ)
      → (cards : List (CardInfo fl)) × (build_cards fl (pos physical) product memory mode count
          ≡ some cards)
        × (map card_shown cards
            ≡ map gpu_shown (build_gpus hostname product memory physical mode count))
  unfolding build_cards build_gpus effective_mode
  mock_and_exporter_agree hostname product memory physical mode count = (
    _,
    refl,
    rw (count_agrees mode count) (
        map-concat_map {D = Shown} card_shown gpu_shown _ _ (range (effective_count mode count))
          (λ phys part. refl) (range physical)),
  )

  module _ (fixed1 : fl.F → String) where
    keys : List (CardInfo fl) → List String
    keys cs = map (λ (c : CardInfo fl). card_key fl fixed1 c) cs

    names : List (CardInfo fl) → List String
    names cs = map (λ (c : CardInfo fl). gpu_id c.index) cs

    key_elsewhere :
        (c : CardInfo fl) (cs : List (CardInfo fl))
        → In (card_key fl fixed1 c) (keys cs)
        → In (gpu_id c.index) (names cs)
    unfolding keys names
    key_elsewhere c [] h = h
    key_elsewhere c (d ∷ ds) (inl e) = inl (ap (append "gpu-") (tail (tail (tail (tail e)))))
    key_elsewhere c (d ∷ ds) (inr h) = inr (key_elsewhere c ds h)

    keys-Distinct : (cs : List (CardInfo fl)) → Distinct (names cs) → Distinct (keys cs)
    unfolding keys names
    keys-Distinct [] h = tt
    keys-Distinct (c ∷ cs) (new, h) = (λ m. new (key_elsewhere c cs m), keys-Distinct cs h)

    -- A key that no later card has keeps its entry.
    lookup-add_cards :
        (doc : Map (Map String)) (k : String) (cs : List (CardInfo fl))
        → ¬ (In k (keys cs))
        → lookup (add_cards fl fixed1 doc cs) k ≡ lookup doc k
    unfolding add_cards keys
    lookup-add_cards doc k [] h = refl
    lookup-add_cards doc k (c ∷ cs) h =
        lookup-add_cards (insert doc (card_key fl fixed1 c) (card_fields fl fixed1 c)) k cs
          (λ m. h (inr m))
        ∙ (lookup-insert doc (card_key fl fixed1 c) k (card_fields fl fixed1 c)
            ∙ rw (differs (Bool-cases (card_key fl fixed1 c == k))) refl)
      where
        differs :
            ((card_key fl fixed1 c == k) ≡ true) ⊎ ((card_key fl fixed1 c == k) ≡ false)
            → (card_key fl fixed1 c == k) ≡ false
        differs (inl same) = absurd (h (inl (sym ((eq_iff (card_key fl fixed1 c) k).0 same))))
        differs (inr other) = other

    added :
        (doc : Map (Map String)) (cs : List (CardInfo fl))
        → Distinct (keys cs)
        → All
            (λ c.
              lookup (add_cards fl fixed1 doc cs) (card_key fl fixed1 c)
              ≡ some (card_fields fl fixed1 c))
            cs
    unfolding add_cards keys
    added doc [] h = tt
    added doc (c ∷ cs) (new, h) = (
      lookup-add_cards (insert doc (card_key fl fixed1 c) (card_fields fl fixed1 c))
            (card_key fl fixed1 c) cs new
          ∙ lookup-insert_self doc (card_key fl fixed1 c) (card_fields fl fixed1 c),
      added (insert doc (card_key fl fixed1 c) (card_fields fl fixed1 c)) cs h,
    )

    names_shown :
        (cs : List (CardInfo fl)) (gs : List Gpu)
        → map card_shown cs ≡ map gpu_shown gs
        → names cs ≡ map (λ (g : Gpu). g.id) gs
    unfolding names
    names_shown cs gs e = first_cards cs ∙ (ap (map (λ (s : Shown). s.0)) e ∙ sym (first_gpus gs))
      where
        first_cards :
            (cs : List (CardInfo fl)) → names cs ≡ map (λ (s : Shown). s.0) (map card_shown cs)
        first_cards [] = refl
        first_cards (c ∷ cs) = ap (λ t. gpu_id c.index ∷ t) (first_cards cs)

        first_gpus :
            (gs : List Gpu)
            → map (λ (g : Gpu). g.id) gs ≡ map (λ (s : Shown). s.0) (map gpu_shown gs)
        first_gpus [] = refl
        first_gpus (g ∷ gs) = ap (λ t. g.id ∷ t) (first_gpus gs)

    names-Distinct :
        (physical : ℤ) (product : String) (memory : ℤ) (mode : String) (count : ℤ)
        (cards : List (CardInfo fl))
        → build_cards fl physical product memory mode count ≡ some cards
        → Distinct (names cards)
    unfolding build_cards
    names-Distinct (negsuc n) product memory mode count cards e = cc
    names-Distinct (pos n) product memory mode count cards e =
        let (built, b, shown) = mock_and_exporter_agree "" product memory n mode count in
        let same : built ≡ cards = some_inj (sym b ∙ e) in
        let shown' = ap (map card_shown) (sym same) ∙ shown in
        rw
          (
            names_shown cards (build_gpus "" product memory n mode count) shown',
            ids-build_gpus "" product memory n mode count,
          )
          (ids_Distinct 0 (n * effective_count mode count))

    -- The JSON document has an entry for every card that was built, with the card's own fields.
    pub doc_has_every_card :
        (physical : ℤ) (product : String) (memory : ℤ) (mode : String) (count : ℤ)
        (cards : List (CardInfo fl))
        → build_cards fl physical product memory mode count ≡ some cards
        → All
            (λ c.
              lookup (json_doc fl fixed1 cards) (card_key fl fixed1 c)
              ≡ some (card_fields fl fixed1 c))
            cards
    unfolding json_doc
    doc_has_every_card physical product memory mode count cards e =
        added _ cards
          (keys-Distinct cards (names-Distinct physical product memory mode count cards e))
