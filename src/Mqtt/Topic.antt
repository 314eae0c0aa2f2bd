-- ===== src/Mqtt/Topic.antt =====
-- ParseTopic of api/mqtt/parser.go, with what it uses of Go's strings package, and the topic of
-- PublishCommand in api/mqtt/publisher.go. A text is its list of bytes.
pub mod RoundTrip
use ev_charge_controller.Prelude.{
  ℕ, zero, suc, Bool, true, false, Option, none, some, List, [], ◌∷◌, ◌++◌, ◌==◌, if◌then◌else◌,
}
use ev_charge_controller.Hhmm.{Text, codes}

abbrev pub slash : ℕ
slash = b'/'

-- topicPrefixEvcc
abbrev pub topic_prefix_evcc : Text
topic_prefix_evcc = codes "evcc/"

pub record ParsedTopic : Type 0 where
  pub namespace : Text
  pub prefix : Text
  pub slug : Text
  pub leaf : Text

-- strings.CutPrefix: strings.HasPrefix, and the text behind the prefix.
unfoldable pub cut_prefix : Text → Text → Option Text
cut_prefix [] t = some t
cut_prefix (p ∷ ps) [] = none
cut_prefix (p ∷ ps) (c ∷ cs) = if c == p then cut_prefix ps cs else none

abbrev pub in_front : ℕ → Option (Text × Text) → Option (Text × Text)
in_front c none = none
in_front c (some (before, after)) = some (c ∷ before, after)

-- strings.Cut at a byte.
unfoldable pub cut : ℕ → Text → Option (Text × Text)
cut sep [] = none
cut sep (c ∷ cs) = let rest = in_front c (cut sep cs) in if c == sep then some ([], cs) else rest

-- strings.SplitN at a byte, into at most `suc n` parts.
abbrev pub split_after : (Text → List Text) → Text → Option (Text × Text) → List Text
split_after next t none = t ∷ []
split_after next t (some (before, after)) = before ∷ next after

unfoldable pub split_n : ℕ → ℕ → Text → List Text
unfolding cut
split_n sep zero t = t ∷ []
split_n sep (suc n) t = split_after (split_n sep n) t (cut sep t)

abbrev pub four_parts : List Text → Option ParsedTopic
four_parts (ns ∷ prefix ∷ slug ∷ leaf ∷ []) =
    some (record { namespace = ns; prefix = prefix; slug = slug; leaf = leaf })
four_parts _ = none

abbrev pub parts_of : Option Text → Option ParsedTopic
parts_of none = none
parts_of (some rest) = four_parts (split_n slash 3 rest)

-- `none` is an error.
unfoldable pub parse_topic : Text → Option ParsedTopic
unfolding cut_prefix split_n
parse_topic topic = parts_of (cut_prefix topic_prefix_evcc topic)

-- The layout evcc/<namespace>/<prefix>/<slug>/<leaf>, as PublishCommand writes it with prefix cmnd.
unfoldable pub format_topic : ParsedTopic → Text
format_topic p =
    topic_prefix_evcc
    ++ (p.namespace ++ (slash ∷ (p.prefix ++ (slash ∷ (p.slug ++ (slash ∷ p.leaf))))))
