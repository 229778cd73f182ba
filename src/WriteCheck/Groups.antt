-- ===== src/WriteCheck/Groups.antt =====
-- The grouping of the marker hits of one line, in `check_shared` of
-- tools/src/pira_write_check/lib.rs. A line is the list of its bytes, as the offsets count bytes.
pub mod Slices
pub mod Overlap
use pira.Common.{
  ℕ, ◌+◌, ◌-◌, Bool, true, false, ◌&&◌, ◌||◌, not, List, [], ◌∷◌, ◌++◌, Option, none, some, ltb,
  leb, within, if◌then◌else◌, Text, Bytes, codes, take, drop,
}

-- A marker of the lexicon.
pub record Cue : Type 0 where
  pub category : Text
  pub marker : Text

-- `(start, end, cue)`.
pub record Hit : Type 0 where
  pub start : ℕ
  pub end : ℕ
  pub cue : Cue

pub record Occurrence : Type 0 where
  pub column : ℕ
  pub span : Bytes
  pub marker : Text
  pub category : Text

pub record Warning : Type 0 where
  pub path : Text
  pub line : ℕ
  pub column : ℕ
  pub span : Bytes
  pub context : Bytes
  pub matches : List Occurrence
  pub prompt : Text

abbrev pub prompt_text : Text
prompt_text = codes "Review whether this marker is necessary in context."

-- `line[a..b]`, for `a <= b`.
unfoldable pub slice : Bytes → ℕ → ℕ → Bytes
slice line a b = take (b - a) (drop a line)

-- `chars().count()`: the bytes that begin a character.
unfoldable pub char_count : Bytes → ℕ
char_count [] = 0
char_count (b ∷ line) = (if within 0x80 0xBF b then 0 else 1) + char_count line

-- The variables of the loop over the hits.
pub record Scan : Type 0 where
  pub warnings : List Warning
  pub group : Option Warning
  pub group_end : ℕ
  pub previous_start : ℕ
  pub column : ℕ

abbrev pub initial : Scan
initial = record { warnings = []; group = none; group_end = 0; previous_start = 0; column = 1 }

-- `if let Some(previous) = group { warnings.push(previous); }`
abbrev pub pushed : List Warning → Option Warning → List Warning
pushed warnings none = warnings
pushed warnings (some w) = warnings ++ w ∷ []

module _ (path : Text) (index : ℕ) (line : Bytes) where
  -- The first hit of a group.
  abbrev pub open_group : Occurrence → Warning
  open_group hit = record {
    path = path;
    line = index + 1;
    column = hit.column;
    span = hit.span;
    context = line;
    matches = hit ∷ [];
    prompt = prompt_text;
  }

  -- A further hit of the group `g`, which has reached `group_end`.
  abbrev pub join_group : Warning → ℕ → Hit → Occurrence → Warning
  join_group g group_end h hit = record g {
    span = g.span ++ (if ltb group_end h.end then slice line group_end h.end else []);
    matches = g.matches ++ hit ∷ [];
  }

  -- The body of the loop, on the state and the group.
  unfoldable pub add_hit_to : Option Warning → Scan → Hit → Scan
  add_hit_to group st h =
      let column = st.column + char_count (slice line st.previous_start h.start) in
      let hit : Occurrence = record {
        column = column;
        span = slice line h.start h.end;
        marker = h.cue.marker;
        category = h.cue.category;
      } in
      let opened : Scan = record {
        warnings = pushed st.warnings group;
        group = some (open_group hit);
        group_end = h.end;
        previous_start = h.start;
        column = column;
      } in
      elim group [
        | none ↦ opened
        | some g ↦ if leb st.group_end h.start then opened else record st {
          group = some (join_group g st.group_end h hit);
          group_end = (if ltb st.group_end h.end then h.end else st.group_end);
          previous_start = h.start;
          column = column;
        }
      ]

  abbrev pub add_hit : Scan → Hit → Scan
  add_hit st h = add_hit_to st.group st h

  unfoldable pub scan_hits : Scan → List Hit → List Warning
  unfolding add_hit_to
  scan_hits st [] = pushed st.warnings st.group
  scan_hits st (h ∷ hits) = scan_hits (add_hit st h) hits

  -- The warnings of one line, from its sorted hits.
  unfoldable pub group_hits : List Hit → List Warning
  unfolding scan_hits
  group_hits = scan_hits initial
