-- ===== src/Map/Xml/Scan.antt =====
-- The loops over the XML text end: their fuel, the length of the text, is enough.
use green_right_topst_linux.Base.{
  ℕ, zero, suc, ◌<◌, ◌≤◌, ◌≡◌, refl, sym, ap, [], ◌∷◌, Bool, true, false, Option, none, some, leb,
  if◌then◌else◌, length, length-drop, take, drop, Str, arith, Bool-cases, Option-cases, inl, inr,
  ◌⊎◌, str_eq→eq, length-take, ◌==◌,
}
use green_right_topst_linux.Libc.{strstr, strchr, has_prefix}
use green_right_topst_linux.Map.Xml.{tags_loop, tags, elements_loop, elements}

-- What a conditional result that succeeds comes from.
pick :
    (b : Bool) {u : Str} {o : Option Str} {t : Str}
    → (if b then some u else o) ≡ some t
    → ((b ≡ true) × (t ≡ u)) ⊎ (o ≡ some t)
pick true h = inl (refl, cc)
pick false h = inr h

prefix_fits : (pattern s : Str) → has_prefix pattern s ≡ true → length pattern ≤ length s
unfolding has_prefix
prefix_fits pattern s h = omega (
  arith,
  ap length (str_eq→eq (take (length pattern) s) pattern h),
  length-take (length pattern) s,
)

-- What `strstr` finds is not longer than the text, and holds the pattern.
strstr_bounds :
    (s pattern : Str) {t : Str}
    → strstr s pattern ≡ some t
    → (length t ≤ length s) × (length pattern ≤ length t)
unfolding strstr
strstr_bounds [] pattern h = elim (pick (has_prefix pattern []) h) [
  | inl (e, f) ↦ simp f (omega arith, prefix_fits pattern [] e)
  | inr e ↦ cc
]
strstr_bounds (c ∷ s) pattern h = elim (pick (has_prefix pattern (c ∷ s)) h) [
  | inl (e, f) ↦ simp f (omega arith, prefix_fits pattern (c ∷ s) e)
  | inr e ↦ let (short, long) = strstr_bounds s pattern e in (omega arith, long)
]

strchr_bounds :
    (s : Str) (c : ℕ) {t : Str} → strchr s c ≡ some t → (length t ≤ length s) × (0 < length t)
unfolding strchr
strchr_bounds [] c h = cc
strchr_bounds (x ∷ s) c h = elim (pick (x == c) h) [
  | inl (e, f) ↦ simp f (omega arith, omega arith)
  | inr e ↦ let (short, long) = strchr_bounds s c e in (omega arith, long)
]

-- No pattern is found in no text.
strstr-none : (pattern : Str) → 0 < length pattern → strstr [] pattern ≡ none
strstr-none pattern h = elim (Option-cases (strstr [] pattern)) [
  | inl e ↦ e
  | inr (t, e) ↦ let (short, long) = strstr_bounds [] pattern e in absurd (omega arith)
]

module _ (pattern block_end : Str) (h : 0 < length pattern) where
  tags_none : (fuel : ℕ) → tags_loop fuel pattern block_end [] ≡ []
  unfolding tags_loop
  tags_none zero = refl
  tags_none (suc fuel) = cc (strstr-none pattern h)

  tags_lem :
      (f g : ℕ) (p : Str)
      → length p ≤ f
      → length p ≤ g
      → tags_loop f pattern block_end p ≡ tags_loop g pattern block_end p
  unfolding tags_loop
  tags_lem zero g [] a b = sym (tags_none g)
  tags_lem zero g (c ∷ p) a b = absurd (omega arith)
  tags_lem (suc f) zero [] a b = tags_none (suc f)
  tags_lem (suc f) zero (c ∷ p) a b = absurd (omega arith)
  tags_lem (suc f) (suc g) p a b = elim (Option-cases (strstr p pattern)) [
    | inl e ↦ cc
    | inr (t, e) ↦ elim (Bool-cases (leb (length t) (length block_end))) [
      | inl k ↦ cc
      | inr k ↦ elim (Option-cases (strchr t 62)) [
        | inl m ↦ cc
        | inr (next, m) ↦ elim (Bool-cases (leb (length next) (length block_end))) [
          | inl n ↦ cc
          | inr n ↦
              let (short, long) = strstr_bounds p pattern e in
              let (short', long') = strchr_bounds t 62 m in
              let rest =
                tags_lem f g (drop 1 next) (omega (arith, length-drop 1 next))
                  (omega (arith, length-drop 1 next)) in
              cc
        ]
      ]
    ]
  ]

module _ (opening closing : Str) (h : 0 < length opening) (k : 0 < length closing) where
  elements_none : (fuel : ℕ) → elements_loop fuel opening closing [] ≡ []
  unfolding elements_loop
  elements_none zero = refl
  elements_none (suc fuel) = cc (strstr-none opening h)

  elements_lem :
      (f g : ℕ) (p : Str)
      → length p ≤ f
      → length p ≤ g
      → elements_loop f opening closing p ≡ elements_loop g opening closing p
  unfolding elements_loop
  elements_lem zero g [] a b = sym (elements_none g)
  elements_lem zero g (c ∷ p) a b = absurd (omega arith)
  elements_lem (suc f) zero [] a b = elements_none (suc f)
  elements_lem (suc f) zero (c ∷ p) a b = absurd (omega arith)
  elements_lem (suc f) (suc g) p a b = elim (Option-cases (strstr p opening)) [
    | inl e ↦ cc
    | inr (start, e) ↦ elim (Option-cases (strstr start closing)) [
      | inl m ↦ cc
      | inr (end, m) ↦
          let (short, long) = strstr_bounds p opening e in
          let (short', long') = strstr_bounds start closing m in
          let rest =
            elements_lem f g (drop (length closing) end)
              (omega (arith, length-drop (length closing) end))
              (omega (arith, length-drop (length closing) end)) in
          cc
    ]
  ]

-- The loops over tags and over elements end: more steps than the text has bytes find nothing more, for
-- every text and every patterns that are not empty.
pub elements_loop-enough :
    (fuel : ℕ) (opening closing block_end p : Str)
    → 0 < length opening
    → 0 < length closing
    → length p ≤ fuel
    → (tags_loop fuel opening block_end p ≡ tags opening block_end p)
      × (elements_loop fuel opening closing p ≡ elements opening closing p)
unfolding tags elements
elements_loop-enough fuel opening closing block_end p h k enough = (
  tags_lem opening block_end h fuel (length p) p enough (omega arith),
  elements_lem opening closing h k fuel (length p) p enough (omega arith),
)
