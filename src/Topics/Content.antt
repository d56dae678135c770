-- ===== src/Topics/Content.antt =====
-- waku/waku_core/topics/content_topic.nim: the printed form of a content topic and its parser.
use nwaku.Base.{
  ℕ, ◌≡◌, refl, arith, Bool, false, not, ◌==◌, if◌then◌else◌, Option, none, some, List, [], ◌∷◌,
  ◌++◌, length, codes, ==_iff, Bool-cases, Option-cases, inl, inr, subst,
}
use nwaku.Base.Int.{ℤ}
use nwaku.Topics.Text.{
  invalid_format, missing_part, Parsed, ok, err, starts_with, split, join, Without, join-split,
  split_plain, split-append, parse_int, print_int, IsInt, parse_int-print_int, print_int-Without,
  print_int-ne-nil,
}

pub record NsContentTopic : Type 0 where
  pub generation : Option ℤ
  pub application : List ℕ
  pub version : List ℕ
  pub name : List ℕ
  pub encoding : List ℕ

abbrev pub print_generation : Option ℤ → List ℕ
print_generation none = []
print_generation (some gen) = b'/' ∷ print_int gen

unfoldable pub print_content : NsContentTopic → List ℕ
print_content t =
    print_generation t.generation
    ++ b'/' ∷ (t.application ++ b'/' ∷ (t.version ++ b'/' ∷ (t.name ++ b'/' ∷ t.encoding)))

abbrev pub is_empty : List ℕ → Bool
is_empty s = length s == 0

-- The last four parts.
unfoldable pub named_parts : Option ℤ → List ℕ → List ℕ → List ℕ → List ℕ → Parsed NsContentTopic
named_parts gen app ver name enc =
    if is_empty app
    then err (missing_part (codes "application"))
    else (if is_empty ver
        then err (missing_part (codes "version"))
        else (if is_empty name
            then err (missing_part (codes "topic-name"))
            else (if is_empty enc
                then err (missing_part (codes "encoding"))
                else ok (record {
                  generation = gen;
                  application = app;
                  version = ver;
                  name = name;
                  encoding = enc;
                }))))

abbrev pub with_generation : Option ℤ → List ℕ → List ℕ → List ℕ → List ℕ → Parsed NsContentTopic
with_generation none app ver name enc =
    err (invalid_format (codes "generation should be a numeric value"))
with_generation (some gen) app ver name enc = named_parts (some gen) app ver name enc

abbrev pub structure_error : List ℕ
structure_error =
    codes
      "Invalid content topic structure. Expected either /<application>/<version>/<topic-name>/<encoding> or /<gen>/<application>/<version>/<topic-name>/<encoding>"

unfoldable pub parse_parts : List (List ℕ) → Parsed NsContentTopic
unfolding named_parts
parse_parts (app ∷ ver ∷ name ∷ enc ∷ []) = named_parts none app ver name enc
parse_parts (gen ∷ app ∷ ver ∷ name ∷ enc ∷ []) =
    if is_empty gen
    then err (missing_part (codes "generation"))
    else with_generation (parse_int gen) app ver name enc
parse_parts _ = err (invalid_format structure_error)

-- `topic[1 ..< topic.len]` of a text that begins with a slash.
abbrev pub parse_behind_slash : List ℕ → Parsed NsContentTopic
parse_behind_slash [] = parse_parts (split b'/' [])
parse_behind_slash (c ∷ cs) = parse_parts (split b'/' cs)

unfoldable pub parse_content : List ℕ → Parsed NsContentTopic
unfolding parse_parts
parse_content topic =
    if not (starts_with (codes "/") topic)
    then err (invalid_format (codes "topic must start with slash"))
    else parse_behind_slash topic

-- A part that is not empty and has no slash.
pub record IsPart (s : List ℕ) : Type 0 where
  pub given : is_empty s ≡ false
  pub plain : Without b'/' s

abbrev pub IsGeneration : Option ℤ → Type 0
IsGeneration none = Unit
IsGeneration (some gen) = IsInt gen

pub record IsTopic (t : NsContentTopic) : Type 0 where
  pub generation : IsGeneration t.generation
  pub application : IsPart t.application
  pub version : IsPart t.version
  pub name : IsPart t.name
  pub encoding : IsPart t.encoding

split_four :
    (a b c d : List ℕ)
    → IsPart a
    → IsPart b
    → IsPart c
    → IsPart d
    → split b'/' (a ++ b'/' ∷ (b ++ b'/' ∷ (c ++ b'/' ∷ d))) ≡ a ∷ b ∷ c ∷ d ∷ []
split_four a b c d ha hb hc hd = rw (
  split-append b'/' a _ ha.plain,
  split-append b'/' b _ hb.plain,
  split-append b'/' c _ hc.plain,
  split_plain b'/' d hd.plain,
)

module _ (a v n e : List ℕ) (ha : IsPart a) (hv : IsPart v) (hn : IsPart n) (he : IsPart e) where
  named_parts-parts :
      (g : Option ℤ)
      → named_parts g a v n e
        ≡ ok (record { generation = g; application = a; version = v; name = n; encoding = e })
  unfolding named_parts
  named_parts-parts g = rw (ha.given, hv.given, hn.given, he.given)

  parse-print_parts :
      (g : Option ℤ)
      → IsGeneration g
      → let t : NsContentTopic = record {
        generation = g;
        application = a;
        version = v;
        name = n;
        encoding = e;
      } in
        parse_content (print_content t) ≡ ok t
  unfolding parse_content print_content starts_with
  parse-print_parts none h = rw (split_four a v n e ha hv hn he) (named_parts-parts none)
  parse-print_parts (some gen) h =
      let filled : (length (print_int gen) == 0) ≡ false = print_int-ne-nil gen in
      rw
        (
          split-append b'/' (print_int gen) _ (print_int-Without gen),
          split_four a v n e ha hv hn he,
          filled,
          parse_int-print_int gen h,
        )
        (named_parts-parts (some gen))

-- A topic whose parts are not empty and have no slash, with a generation of 64 bits, if any: what
-- is printed parses to the same topic.
pub parse_content-print_content :
    (t : NsContentTopic) → IsTopic t → parse_content (print_content t) ≡ ok t
parse_content-print_content t h =
    parse-print_parts t.application t.version t.name t.encoding h.application h.version h.name
      h.encoding t.generation h.generation

-- A text spells a topic, if it is what is printed, but for the way in which the generation is
-- written.
abbrev pub Spells : List ℕ → NsContentTopic → Option ℤ → Type 0
Spells s t none = s ≡ print_content t
Spells s t (some gen) =
    (g : List ℕ) × (parse_int g ≡ some gen)
    × (s ≡ b'/' ∷ (g ++ print_content (record t { generation = none })))

named_parts-ok :
    (g : Option ℤ) (a v n e : List ℕ) (t : NsContentTopic)
    → named_parts g a v n e ≡ ok t
    → record { generation = g; application = a; version = v; name = n; encoding = e } ≡ t
unfolding named_parts
named_parts-ok g a v n e t h = ground arith

parse_parts-Spells :
    (ws : List (List ℕ)) (t : NsContentTopic)
    → parse_parts ws ≡ ok t
    → Spells (b'/' ∷ join b'/' ws) t t.generation
unfolding parse_parts print_content join
parse_parts-Spells [] t h = cc
parse_parts-Spells (a ∷ []) t h = cc
parse_parts-Spells (a ∷ v ∷ []) t h = cc
parse_parts-Spells (a ∷ v ∷ n ∷ []) t h = cc
parse_parts-Spells (a ∷ v ∷ n ∷ e ∷ []) t h =
    subst (λ t. Spells (b'/' ∷ join b'/' (a ∷ v ∷ n ∷ e ∷ [])) t t.generation)
      (named_parts-ok none a v n e t h) refl
parse_parts-Spells (g ∷ a ∷ v ∷ n ∷ e ∷ []) t h = elim (Bool-cases (is_empty g)) [
  | inl empty ↦ cc (rw empty at h)
  | inr given ↦ elim (Option-cases (parse_int g)) [
    | inl bad ↦ cc (rw (given, bad) at h)
    | inr (gen, is) ↦
        subst (λ t. Spells (b'/' ∷ join b'/' (g ∷ a ∷ v ∷ n ∷ e ∷ [])) t t.generation)
          (named_parts-ok (some gen) a v n e t (rw (given, is) at h)) (g, is, refl)
  ]
]
parse_parts-Spells (g ∷ a ∷ v ∷ n ∷ e ∷ f ∷ more) t h = cc

-- Whatever text is accepted spells the topic that it parses to.
pub parse_content-Spells :
    (s : List ℕ) (t : NsContentTopic) → parse_content s ≡ ok t → Spells s t t.generation
unfolding parse_content starts_with
parse_content-Spells [] t h = cc
parse_content-Spells (c ∷ cs) t h = elim (Bool-cases (b'/' == c)) [
  | inl slash ↦
      let spelled = parse_parts-Spells (split b'/' cs) t (rw slash at h) in
      subst (λ d. Spells (d ∷ cs) t t.generation) ((==_iff b'/' c).0 slash)
        (subst (λ r. Spells (b'/' ∷ r) t t.generation) (join-split b'/' cs) spelled)
  | inr other ↦ cc (rw other at h)
]
