-- ===== src/Mqtt/Topic/RoundTrip.antt =====
-- Parsing a topic and writing it are inverse to each other.
use ev_charge_controller.Prelude.{
  ℕ, zero, suc, ◌≡◌, ◌≢◌, refl, sym, ap, subst, ap₂, ◌∙◌, Option, none, some, List, [], ◌∷◌, ◌++◌,
  ◌==◌, All, arith, if◌then◌else◌, Bool-cases, inl, inr,
}
use ev_charge_controller.Hhmm.{Text}
use ev_charge_controller.Mqtt.Topic.{
  slash, topic_prefix_evcc, ParsedTopic, cut_prefix, in_front, cut, split_after, split_n,
  four_parts, parts_of, parse_topic, format_topic,
}

cut_prefix-append : (p t : Text) → cut_prefix p (p ++ t) ≡ some t
unfolding cut_prefix
cut_prefix-append [] t = refl
cut_prefix-append (c ∷ p) t = ground (arith, cut_prefix-append p t)

append-cut_prefix : (p t rest : Text) → cut_prefix p t ≡ some rest → t ≡ p ++ rest
unfolding cut_prefix
append-cut_prefix [] t rest e = cc e
append-cut_prefix (c ∷ p) [] rest e = absurd (cc e)
append-cut_prefix (c ∷ p) (d ∷ t) rest e = elim (Bool-cases (d == c)) [
  | inl same ↦
      let first : d ≡ c = ground arith in
      let rest_of : cut_prefix p t ≡ some rest =
        subst (λ b. (if b then cut_prefix p t else none) ≡ some rest) same e in
      ap₂ (λ (x : ℕ) (y : Text). x ∷ y) first (append-cut_prefix p t rest rest_of)
  | inr other ↦ absurd (cc (subst (λ b. (if b then cut_prefix p t else none) ≡ some rest) other e))
]

-- No byte of the text is the separator.
abbrev pub IsFree : ℕ → Text → Type 0
IsFree sep t = All (λ c. c ≢ sep) t

cut-append : (sep : ℕ) (a b : Text) → IsFree sep a → cut sep (a ++ sep ∷ b) ≡ some (a, b)
unfolding cut
cut-append sep [] b free = ground arith
cut-append sep (c ∷ a) b free = ground (arith, free.0, cut-append sep a b free.1)

-- Where the text is cut, from where its tail is.
cut-step :
    (sep c : ℕ) (t a b : Text) (o : Option (Text × Text))
    → ((x y : Text) → o ≡ some (x, y) → t ≡ x ++ sep ∷ y)
    → (if c == sep then some ([], t) else in_front c o) ≡ some (a, b)
    → c ∷ t ≡ a ++ sep ∷ b
cut-step sep c t a b none tail e = elim (Bool-cases (c == sep)) [
  | inl here ↦
      let q : Path (Option (Text × Text)) (some ([], t)) (some (a, b)) =
        subst (λ x. (if◌then◌else◌ {A = Option (Text × Text)} x (some ([], t)) none) ≡ some (a, b))
          here e in
      let first : c ≡ sep = ground arith in
      let pair : Path (Text × Text) ([], t) (a, b) = cc q in
      ap₂ (λ (x : ℕ) (y : Text). x ∷ y) first refl ∙ ap (λ (r : Text × Text). r.0 ++ sep ∷ r.1) pair
  | inr later ↦ absurd (
      cc (
        subst (λ x. (if◌then◌else◌ {A = Option (Text × Text)} x (some ([], t)) none) ≡ some (a, b))
          later e))
]
cut-step sep c t a b (some (x, y)) tail e = elim (Bool-cases (c == sep)) [
  | inl here ↦
      let q : Path (Option (Text × Text)) (some ([], t)) (some (a, b)) =
        subst
          (λ z.
            (if◌then◌else◌ {A = Option (Text × Text)} z (some ([], t)) (some (c ∷ x, y)))
            ≡ some (a, b))
          here e in
      let first : c ≡ sep = ground arith in
      let pair : Path (Text × Text) ([], t) (a, b) = cc q in
      ap₂ (λ (x : ℕ) (y : Text). x ∷ y) first refl ∙ ap (λ (r : Text × Text). r.0 ++ sep ∷ r.1) pair
  | inr later ↦
      let q : Path (Option (Text × Text)) (some (c ∷ x, y)) (some (a, b)) =
        subst
          (λ z.
            (if◌then◌else◌ {A = Option (Text × Text)} z (some ([], t)) (some (c ∷ x, y)))
            ≡ some (a, b))
          later e in
      let pair : Path (Text × Text) (c ∷ x, y) (a, b) = cc q in
      ap (λ (z : Text). c ∷ z) (tail x y refl) ∙ ap (λ (r : Text × Text). r.0 ++ sep ∷ r.1) pair
]

append-cut : (sep : ℕ) (t a b : Text) → cut sep t ≡ some (a, b) → t ≡ a ++ sep ∷ b
unfolding cut
append-cut sep [] a b e = absurd (cc e)
append-cut sep (c ∷ t) a b e = cut-step sep c t a b (cut sep t) (λ x y q. append-cut sep t x y q) e

append_nil : (t : Text) → t ++ [] ≡ t
append_nil [] = refl
append_nil (c ∷ t) = ap (λ (x : Text). c ∷ x) (append_nil t)

-- The parts, each behind a separator.
abbrev joined : ℕ → List Text → Text
joined sep [] = []
joined sep (t ∷ ts) = sep ∷ (t ++ joined sep ts)

joined-split_after :
    (sep : ℕ) (next : Text → List Text) (t : Text) (o : Option (Text × Text))
    → ((x : Text) → joined sep (next x) ≡ sep ∷ x)
    → cut sep t ≡ o
    → joined sep (split_after next t o) ≡ sep ∷ t
joined-split_after sep next t none h e = ap (λ (x : Text). sep ∷ x) (append_nil t)
joined-split_after sep next t (some (a, b)) h e =
    ap (λ (x : Text). sep ∷ (a ++ x)) (h b)
    ∙ ap (λ (x : Text). sep ∷ x) (sym (append-cut sep t a b e))

joined-split_n : (sep n : ℕ) (t : Text) → joined sep (split_n sep n t) ≡ sep ∷ t
unfolding split_n
joined-split_n sep zero t = ap (λ (x : Text). sep ∷ x) (append_nil t)
joined-split_n sep (suc n) t =
    joined-split_after sep (split_n sep n) t (cut sep t) (joined-split_n sep n) refl

abbrev layout : ParsedTopic → Text
layout p = slash ∷ (p.namespace ++ (slash ∷ (p.prefix ++ (slash ∷ (p.slug ++ (slash ∷ p.leaf))))))

joined-four_parts :
    (ts : List Text) (p : ParsedTopic) → four_parts ts ≡ some p → layout p ≡ joined slash ts
joined-four_parts [] p e = absurd (cc e)
joined-four_parts (a ∷ []) p e = absurd (cc e)
joined-four_parts (a ∷ b ∷ []) p e = absurd (cc e)
joined-four_parts (a ∷ b ∷ c ∷ []) p e = absurd (cc e)
joined-four_parts (a ∷ b ∷ c ∷ d ∷ x ∷ xs) p e = absurd (cc e)
joined-four_parts (a ∷ b ∷ c ∷ d ∷ []) p e =
    let q : Path ParsedTopic (record { namespace = a; prefix = b; slug = c; leaf = d }) p = cc e in
    ap layout (sym q)
    ∙ ap (λ (x : Text). slash ∷ (a ++ (slash ∷ (b ++ (slash ∷ (c ++ (slash ∷ x)))))))
        (sym (append_nil d))

abbrev tail_of : Text → Text
tail_of [] = []
tail_of (c ∷ t) = t

parts_of-layout :
    (topic : Text) (o : Option Text) (p : ParsedTopic)
    → cut_prefix topic_prefix_evcc topic ≡ o
    → parts_of o ≡ some p
    → format_topic p ≡ topic
unfolding format_topic
parts_of-layout topic none p e q = absurd (cc q)
parts_of-layout topic (some rest) p e q =
    let body : layout p ≡ slash ∷ rest =
      joined-four_parts (split_n slash 3 rest) p q ∙ joined-split_n slash 3 rest in
    ap (λ (x : Text). topic_prefix_evcc ++ tail_of x) body
    ∙ sym (append-cut_prefix topic_prefix_evcc topic rest e)

-- A topic that is parsed is the one that its parts are written as: nothing of it is lost.
format-parse_topic :
    (topic : Text) (p : ParsedTopic) → parse_topic topic ≡ some p → format_topic p ≡ topic
unfolding parse_topic
format-parse_topic topic p e = parts_of-layout topic (cut_prefix topic_prefix_evcc topic) p refl e

split_n-append :
    (sep n : ℕ) (a b : Text)
    → IsFree sep a
    → split_n sep (suc n) (a ++ sep ∷ b) ≡ a ∷ split_n sep n b
unfolding split_n
split_n-append sep n a b free =
    ap (split_after (split_n sep n) (a ++ sep ∷ b)) (cut-append sep a b free)

-- Every topic whose namespace, prefix and slug have no slash is parsed to the parts that it was written
-- from, whatever the leaf is.
parse_topic-format :
    (p : ParsedTopic)
    → IsFree slash p.namespace
    → IsFree slash p.prefix
    → IsFree slash p.slug
    → parse_topic (format_topic p) ≡ some p
unfolding parse_topic format_topic split_n cut_prefix
parse_topic-format p ns prefix slug =
    let rest1 : Text = p.prefix ++ (slash ∷ (p.slug ++ (slash ∷ p.leaf))) in
    let rest2 : Text = p.slug ++ (slash ∷ p.leaf) in
    ap parts_of (cut_prefix-append topic_prefix_evcc (p.namespace ++ slash ∷ rest1))
    ∙ ap four_parts (
        split_n-append slash 2 p.namespace rest1 ns
        ∙ ap (λ (x : List Text). p.namespace ∷ x)
            (split_n-append slash 1 p.prefix rest2 prefix
              ∙ ap (λ (x : List Text). p.prefix ∷ x) (split_n-append slash 0 p.slug p.leaf slug)))
