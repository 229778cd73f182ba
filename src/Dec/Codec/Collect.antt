-- ===== src/Dec/Codec/Collect.antt =====
-- What the loop of `decode` collects from the fields of a record.
use pira.Common.{
  ℕ, ◌^◌, ◌≤◌, ◌<◌, ◌≡◌, refl, ◌∙◌, List, [], ◌∷◌, ◌++◌, Text, Option, none, some, ok, arith, All,
  append-nil, append_assoc, le→ltb_false,
}
use pira.Common.Utf8.{utf8, IsText, from_utf8-utf8}
use pira.Dec.Codec.{
  to_le, from_le, from_le-to_le, length-to_le, Fields, no_fields, parse_string, accept, maker_byte,
}
use pira.Dec.Codec.Read.{accept_all}
use pira.Dec.Codec.Render.{Field, tagged, tagged_option, fields_of}
use pira.Dec.Model.{
  Maker, human, agent, DecisionRecord, max_id_bytes, max_context_bytes, max_choice_bytes, len,
}

-- A Rust string of at most `maximum` bytes.
pub record IsStored (maximum : ℕ) (s : Text) : Type 0 where
  pub text : IsText s
  pub bounded : len s ≤ maximum

abbrev pub IsStoredOption : ℕ → Option Text → Type 0
IsStoredOption maximum none = Unit
IsStoredOption maximum (some s) = IsStored maximum s

-- The sizes of a record's parts are those that `decode` admits.
pub record Fits (r : DecisionRecord) : Type 0 where
  pub id : IsStored max_id_bytes r.id
  pub timestamp_ms : r.timestamp_ms < 2 ^ 64
  pub context : IsStored max_context_bytes r.context
  pub choices : All (IsStored max_choice_bytes) r.choices
  pub decision : r.decision < 2 ^ 32
  pub supersedes : IsStoredOption max_id_bytes r.supersedes
  pub related : All (IsStored max_id_bytes) r.related

parse_string-utf8 :
    (maximum : ℕ) (s : Text) → IsStored maximum s → parse_string (utf8 s) maximum ≡ ok s
unfolding parse_string
parse_string-utf8 maximum s h =
    rw (le→ltb_false maximum (len s) h.bounded, from_utf8-utf8 s h.text) refl

-- The tag after a run of fields of one tag.
abbrev pub tag_after : ℕ → ℕ → List Text → ℕ
tag_after old tag [] = old
tag_after old tag (_ ∷ _) = tag

tag_after_same : (tag : ℕ) (items : List Text) → tag_after tag tag items ≡ tag
tag_after_same tag [] = refl
tag_after_same tag (_ ∷ _) = refl

tag_after-le : (old tag : ℕ) (items : List Text) → old ≤ tag → tag_after old tag items ≤ tag
tag_after-le old tag [] h = h
tag_after-le old tag (_ ∷ _) h = omega arith

abbrev pub with_choices : Fields → List Text → Fields
with_choices st items = record st {
  choices = st.choices ++ items;
  previous_tag = tag_after st.previous_tag 4 items;
}

abbrev pub with_related : Fields → List Text → Fields
with_related st items = record st {
  related = st.related ++ items;
  previous_tag = tag_after st.previous_tag 8 items;
}

collect_choices :
    (items : List Text) (st : Fields) (fs : List Field)
    → All (IsStored max_choice_bytes) items
    → st.previous_tag ≤ 4
    → accept_all st (tagged 4 items ++ fs) ≡ accept_all (with_choices st items) fs
unfolding accept_all accept
collect_choices [] st fs h p = rw append-nil refl
collect_choices (s ∷ items) st fs h p =
    rw (le→ltb_false 4 st.previous_tag p, parse_string-utf8 max_choice_bytes s h.0)
      (collect_choices items (with_choices st (s ∷ [])) fs h.1 (omega arith)
        ∙ rw (tag_after_same 4 items, append_assoc st.choices (s ∷ []) items) refl)

collect_related :
    (items : List Text) (st : Fields)
    → All (IsStored max_id_bytes) items
    → st.previous_tag ≤ 8
    → accept_all st (tagged 8 items) ≡ ok (with_related st items)
unfolding accept_all accept
collect_related [] st h p = rw append-nil refl
collect_related (s ∷ items) st h p =
    rw (le→ltb_false 8 st.previous_tag p, parse_string-utf8 max_id_bytes s h.0)
      (collect_related items (with_related st (s ∷ [])) h.1 (omega arith)
        ∙ rw (tag_after_same 8 items, append_assoc st.related (s ∷ []) items) refl)

abbrev pub with_supersedes : Fields → Option Text → Fields
with_supersedes st none = st
with_supersedes st (some s) = record st { supersedes = some s; previous_tag = 7 }

collect_supersedes :
    (item : Option Text) (st : Fields) (fs : List Field)
    → IsStoredOption max_id_bytes item
    → st.previous_tag ≤ 7
    → st.supersedes ≡ none
    → accept_all st (tagged_option 7 item ++ fs) ≡ accept_all (with_supersedes st item) fs
unfolding accept_all accept
collect_supersedes none st fs h p e = refl
collect_supersedes (some s) st fs h p e =
    rw (le→ltb_false 7 st.previous_tag p, e, parse_string-utf8 max_id_bytes s h) refl

abbrev pub after_header : DecisionRecord → Fields
after_header r = record no_fields {
  id = some r.id;
  timestamp_ms = some r.timestamp_ms;
  context = some r.context;
  previous_tag = 3;
}

collect_header :
    (r : DecisionRecord) (fs : List Field)
    → Fits r
    → accept_all no_fields ((1, utf8 r.id) ∷ (2, to_le 8 r.timestamp_ms) ∷ (3, utf8 r.context) ∷ fs)
      ≡ accept_all (after_header r) fs
unfolding accept_all accept
collect_header r fs h =
    rw
      (
        parse_string-utf8 max_id_bytes r.id h.id,
        length-to_le 8 r.timestamp_ms,
        from_le-to_le 8 r.timestamp_ms h.timestamp_ms,
        parse_string-utf8 max_context_bytes r.context h.context,
      )
      refl

abbrev pub after_maker : Fields → ℕ → Maker → Fields
after_maker st n m = record st { decision = some n; maker = some m; previous_tag = 6 }

collect_decision :
    (st : Fields) (n : ℕ) (m : Maker) (fs : List Field)
    → n < 2 ^ 32
    → st.previous_tag ≤ 5
    → st.decision ≡ none
    → st.maker ≡ none
    → accept_all st ((5, to_le 4 n) ∷ (6, maker_byte m ∷ []) ∷ fs)
      ≡ accept_all (after_maker st n m) fs
unfolding accept_all accept from_le
collect_decision st n human fs h p d e =
    rw (le→ltb_false 5 st.previous_tag p, d, e, length-to_le 4 n, from_le-to_le 4 n h) refl
collect_decision st n agent fs h p d e =
    rw (le→ltb_false 5 st.previous_tag p, d, e, length-to_le 4 n, from_le-to_le 4 n h) refl

-- The state behind the loop, on the fields of `r`.
abbrev pub before_relations : DecisionRecord → Fields
before_relations r = after_maker (with_choices (after_header r) r.choices) r.decision r.maker

abbrev pub collected : DecisionRecord → Fields
collected r = with_related (with_supersedes (before_relations r) r.supersedes) r.related

supersedes_tag :
    (r : DecisionRecord) (item : Option Text)
    → (with_supersedes (before_relations r) item).previous_tag ≤ 8
supersedes_tag r none = omega arith
supersedes_tag r (some s) = omega arith

-- The loop reads back what the record was written from.
pub accept_all-fields_of :
    (r : DecisionRecord) → Fits r → accept_all no_fields (fields_of r) ≡ ok (collected r)
accept_all-fields_of r h =
    collect_header r _ h
    ∙ collect_choices r.choices (after_header r) _ h.choices (omega arith)
    ∙ collect_decision (with_choices (after_header r) r.choices) r.decision r.maker _ h.decision
        (omega (arith, tag_after-le 3 4 r.choices)) refl refl
    ∙ collect_supersedes r.supersedes (before_relations r) _ h.supersedes (omega arith) refl
    ∙ collect_related r.related (with_supersedes (before_relations r) r.supersedes) h.related
        (supersedes_tag r r.supersedes)
