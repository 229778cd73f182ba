-- ===== src/Dec/Codec/Sticky.antt =====
-- Legacy records can repeat the maker field: the loop of `decode` keeps human authority.
use pira.Common.{
  ℕ, ◌+◌, ◌≤◌, ◌≡◌, refl, sym, ◌∙◌, ap₂, List, [], ◌∷◌, Bytes, Bool, true, false, ◌⊎◌, inl, inr,
  Option, some, ltb, if◌then◌else◌, Result, ok, err, reject, ok_or, ◌>>=◌, >>=-eq-ok, >>-eq-ok,
  ok-injective, arith, length, All,
}
use pira.Dec.Codec.{Fields, no_fields, next_maker, accept, finish, decode}
use pira.Dec.Codec.Read.{accept_all, read_fields-render}
use pira.Dec.Codec.Render.{Field, render, IsSmall}
use pira.Dec.Codec.RoundTrip.{frame, decode-frame}
use pira.Dec.Error.{
  Error, out_of_order, missing_id, missing_timestamp, missing_context, missing_decision,
}
use pira.Dec.Model.{Maker, human, DecisionRecord, validate, max_record_bytes}

-- A maker field with human authority stands among the fields.
abbrev pub HasHuman : List Field → Type 0
HasHuman [] = ⊥
HasHuman ((tag, value) ∷ fs) = ((tag ≡ 6) × (value ≡ 1 ∷ [])) ⊎ HasHuman fs

accept_human : (st st' : Fields) → accept st 6 (1 ∷ []) ≡ ok st' → st'.maker ≡ some human
unfolding accept
accept_human st st' h = ground arith

-- A result that, where it is one, has human authority.
data IsHuman : Result Error Fields → Type 0 where
  with_ok : (st : Fields) → st.maker ≡ some human → IsHuman (ok st)
  with_err : (e : Error) → IsHuman (err e)

if-IsHuman :
    (b : Bool) {x y : Result Error Fields} → IsHuman x → IsHuman y → IsHuman (if b then x else y)
if-IsHuman true p q = p
if-IsHuman false p q = q

bind-IsHuman {ℓ} :
    {A : Type ℓ} (m : Result Error A) {k : A → Result Error Fields}
    → ((a : A) → IsHuman (k a))
    → IsHuman (m >>= k)
bind-IsHuman (ok a) q = q a
bind-IsHuman (err e) q = with_err e

next_maker-human :
    (m : Option Maker) (next : Maker) → m ≡ some human → next_maker m next ≡ some human
next_maker-human m next h = rw h refl

accept-IsHuman :
    (st : Fields) (tag : ℕ) (value : Bytes) → st.maker ≡ some human → IsHuman (accept st tag value)
unfolding accept
accept-IsHuman st tag value h =
    search (if-IsHuman, bind-IsHuman, next_maker-human, with_ok, with_err) depth 14

ok-IsHuman : {st : Fields} {r : Result Error Fields} → IsHuman r → r ≡ ok st → st.maker ≡ some human
ok-IsHuman (with_ok st h) e = rw (← ok-injective e) h
ok-IsHuman (with_err x) e = cc

accept-next :
    (st now st' : Fields) (tag : ℕ) (value : Bytes) (fs : List Field)
    → now.maker ≡ st.maker
    → accept now tag value ≡ ok st'
    → (st.maker ≡ some human) ⊎ HasHuman ((tag, value) ∷ fs)
    → (st'.maker ≡ some human) ⊎ HasHuman fs
accept-next st now st' tag value fs m a (inl h) =
    inl (ok-IsHuman (accept-IsHuman now tag value (m ∙ h)) a)
accept-next st now st' tag value fs m a (inr (inl (t, v))) =
    inl (accept_human now st' (ap₂ (accept now) (sym t) (sym v) ∙ a))
accept-next st now st' tag value fs m a (inr (inr h)) = inr h

accept_all-IsHuman :
    (fs : List Field) (st last : Fields)
    → (st.maker ≡ some human) ⊎ HasHuman fs
    → accept_all st fs ≡ ok last
    → last.maker ≡ some human
unfolding accept_all
accept_all-IsHuman [] st last (inl h) e = rw (← ok-injective e) h
accept_all-IsHuman [] st last (inr h) e = absurd h
accept_all-IsHuman ((tag, value) ∷ fs) st last h e =
    let now = record st { previous_tag = tag } in
    let (_, e1) = >>-eq-ok (reject (ltb tag st.previous_tag) out_of_order) _ e in
    let (st', a, e2) = >>=-eq-ok (accept now tag value) _ e1 in
    accept_all-IsHuman fs st' last (accept-next st now st' tag value fs refl a h) e2

finish-maker :
    (st : Fields) (r : DecisionRecord) → st.maker ≡ some human → finish st ≡ ok r → r.maker ≡ human
unfolding finish
finish-maker st r m h =
    let (id, _, h2) = >>=-eq-ok (ok_or st.id missing_id) _ (rw m at h) in
    let (timestamp_ms, _, h3) = >>=-eq-ok (ok_or st.timestamp_ms missing_timestamp) _ h2 in
    let (context, _, h4) = >>=-eq-ok (ok_or st.context missing_context) _ h3 in
    let (decision, _, h5) = >>=-eq-ok (ok_or st.decision missing_decision) _ h4 in
    let (_, same) = >>-eq-ok (validate _) _ h5 in rw (← ok-injective same) refl

-- A record that `decode` returns from a body with a human maker field is a human's decision, also
-- where an agent's maker field stands before or behind it.
pub decode-human :
    (sha256 : Bytes → Bytes) (fs : List Field) (r : DecisionRecord)
    → length (sha256 (render fs)) ≡ 32
    → All IsSmall fs
    → 8 + 4 + length (render fs) + 32 ≤ max_record_bytes
    → HasHuman fs
    → decode sha256 (frame sha256 (render fs)) ≡ ok r
    → r.maker ≡ human
decode-human sha256 fs r d s b h e =
    let loop = read_fields-render fs (length (render fs)) (omega arith) s no_fields in
    let e1 = sym (decode-frame sha256 (render fs) d b) ∙ e in
    let (st, e2, e3) = >>=-eq-ok (accept_all no_fields fs) finish (rw loop at e1) in
    finish-maker st r (accept_all-IsHuman fs no_fields st (inr h) e2) e3
