-- ===== src/Dec/Codec/Render.antt =====
-- The body that `encode` writes, as a list of fields in the order of their tags.
use pira.Common.{
  ℕ, ◌^◌, ◌<◌, ◌≡◌, refl, ◌∙◌, ap, List, [], ◌∷◌, ◌++◌, Option, none, some, Bytes, Text, ltb,
  ltb→lt, Result, ok, ◌>>=◌, >>=-eq-ok, arith, length, All, All-append, append-nil, append_assoc,
  Bool-cases, sym, ok-injective, inl, inr,
}
use pira.Common.Utf8.{utf8}
use pira.Dec.Codec.{to_le, put_tlv, put_each, put_option, encode_body, maker_byte}
use pira.Dec.Error.{Error}
use pira.Dec.Model.{DecisionRecord}

abbrev pub Field : Type 0
Field = ℕ × Bytes

abbrev pub render : List Field → Bytes
render [] = []
render ((tag, value) ∷ fs) = tag ∷ (to_le 4 (length value) ++ (value ++ render fs))

-- The length of the value fits in four bytes.
abbrev pub IsSmall : Field → Type 0
IsSmall f = length f.1 < 2 ^ 32

abbrev pub tagged : ℕ → List Text → List Field
tagged tag [] = []
tagged tag (s ∷ items) = (tag, utf8 s) ∷ tagged tag items

abbrev pub tagged_option : ℕ → Option Text → List Field
tagged_option tag none = []
tagged_option tag (some s) = (tag, utf8 s) ∷ []

-- The fields of a record.
abbrev pub fields_of : DecisionRecord → List Field
fields_of r =
    (1, utf8 r.id)
    ∷ (2, to_le 8 r.timestamp_ms)
    ∷ (3, utf8 r.context)
    ∷ (tagged 4 r.choices
        ++ ((5, to_le 4 r.decision)
            ∷ (6, maker_byte r.maker ∷ [])
            ∷ (tagged_option 7 r.supersedes ++ tagged 8 r.related)))

pub render-append : (fs gs : List Field) → render (fs ++ gs) ≡ render fs ++ render gs
render-append [] gs = refl
render-append ((tag, value) ∷ fs) gs = simp (render-append fs gs, append_assoc)

-- The body after some calls: it has grown by the rendering of some fields, all of them small.
pub record Puts (body : Bytes) (fs : List Field) (out : Bytes) : Type 0 where
  pub grown : out ≡ body ++ render fs
  pub small : All IsSmall fs

put_tlv-Puts :
    (body : Bytes) (tag : ℕ) (value : Bytes) {out : Bytes}
    → put_tlv body tag value ≡ ok out
    → Puts body ((tag, value) ∷ []) out
unfolding put_tlv
put_tlv-Puts body tag value h = elim (Bool-cases (ltb (length value) (2 ^ 32))) [
  | inl p ↦ record { grown = rw append-nil (ground arith); small = (ltb→lt _ _ p, tt) }
  | inr p ↦ ground arith
]

Puts-nil : (body : Bytes) → Puts body [] body
Puts-nil body = record { grown = sym (append-nil body); small = tt }

Puts-append :
    (fs gs : List Field) {body mid out : Bytes}
    → Puts body fs mid
    → Puts mid gs out
    → Puts body (fs ++ gs) out
Puts-append fs gs {body} p q = record {
  grown =
      q.grown
      ∙ ap (λ x. x ++ render gs) p.grown
      ∙ append_assoc body (render fs) (render gs)
      ∙ ap (◌++◌ body) (sym (render-append fs gs));
  small = All-append IsSmall fs gs p.small q.small;
}

put_each-Puts :
    (body : Bytes) (tag : ℕ) (items : List Text) {out : Bytes}
    → put_each body tag items ≡ ok out
    → Puts body (tagged tag items) out
unfolding put_each
put_each-Puts body tag [] h = rw (← ok-injective h) (Puts-nil body)
put_each-Puts body tag (s ∷ items) h =
    let (mid, one, others) = >>=-eq-ok (put_tlv body tag (utf8 s)) _ h in
    Puts-append ((tag, utf8 s) ∷ []) (tagged tag items) (put_tlv-Puts body tag _ one)
      (put_each-Puts mid tag items others)

put_option-Puts :
    (body : Bytes) (tag : ℕ) (item : Option Text) {out : Bytes}
    → put_option body tag item ≡ ok out
    → Puts body (tagged_option tag item) out
unfolding put_option
put_option-Puts body tag none h = rw (← ok-injective h) (Puts-nil body)
put_option-Puts body tag (some s) h = put_tlv-Puts body tag (utf8 s) h

-- One call after another.
Puts-bind :
    (m : Result Error Bytes) (k : Bytes → Result Error Bytes) (fs gs : List Field)
    {body out : Bytes}
    → (m >>= k) ≡ ok out
    → ((mid : Bytes) → m ≡ ok mid → Puts body fs mid)
    → ((mid : Bytes) → k mid ≡ ok out → Puts mid gs out)
    → Puts body (fs ++ gs) out
Puts-bind m k fs gs h first later =
    let (mid, e, rest) = >>=-eq-ok m k h in Puts-append fs gs (first mid e) (later mid rest)

-- `encode` writes the fields of the record, in the order of their tags.
pub encode_body-Puts :
    (r : DecisionRecord) {body : Bytes} → encode_body r ≡ ok body → Puts [] (fields_of r) body
unfolding encode_body
encode_body-Puts r h =
    Puts-bind _ _ (_ ∷ []) _ h (λ m. put_tlv-Puts _ 1 _)
      λ b1 h1.
        Puts-bind _ _ (_ ∷ []) _ h1 (λ m. put_tlv-Puts _ 2 _)
          λ b2 h2.
            Puts-bind _ _ (_ ∷ []) _ h2 (λ m. put_tlv-Puts _ 3 _)
              λ b3 h3.
                Puts-bind _ _ (tagged 4 r.choices) _ h3 (λ m. put_each-Puts _ 4 r.choices)
                  λ b4 h4.
                    Puts-bind _ _ (_ ∷ []) _ h4 (λ m. put_tlv-Puts _ 5 _)
                      λ b5 h5.
                        Puts-bind _ _ (_ ∷ []) _ h5 (λ m. put_tlv-Puts _ 6 _)
                          λ b6 h6.
                            Puts-bind _ _ (tagged_option 7 r.supersedes) _ h6
                              (λ m. put_option-Puts _ 7 r.supersedes)
                              λ b7 h7. put_each-Puts b7 8 r.related h7
