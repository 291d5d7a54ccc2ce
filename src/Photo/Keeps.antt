-- ===== src/Photo/Keeps.antt =====
-- What the confirmation of a photo leaves as it was (`ConfirmPhoto` of db/worker.sql.go).
use sdano.Base.{ℕ, ◌≡◌, refl, ◌∙◌, Option, none, some, coalesce, arith}
use sdano.Store.{Photo}
use sdano.Queries.Photos.{ConfirmPhotoParams, confirmed_photo}

-- What a confirmed photo says stays; what it does not say may be added.
pub record Keeps (ph ph' : Photo) : Type 0 where
  pub execution : ph'.execution_id ≡ ph.execution_id
  pub kind : ph'.kind ≡ ph.kind
  pub key : ph'.s3_key ≡ ph.s3_key
  pub uploaded : ph'.uploaded_at ≡ ph.uploaded_at
  pub taken : coalesce ph.taken_at ph'.taken_at ≡ ph'.taken_at
  pub lat : coalesce ph.lat ph'.lat ≡ ph'.lat
  pub lon : coalesce ph.lon ph'.lon ≡ ph'.lon

coalesce_self : {A : Type 0} → (o : Option A) → coalesce o o ≡ o
coalesce_self none = refl
coalesce_self (some a) = refl

coalesce_trans :
    {A : Type 0} → (a b c : Option A) → coalesce a b ≡ b → coalesce b c ≡ c → coalesce a c ≡ c
coalesce_trans none b c h k = refl
coalesce_trans (some x) b c h k = ground arith

pub Keeps-refl : (ph : Photo) → Keeps ph ph
Keeps-refl ph = record {
  execution = refl;
  kind = refl;
  key = refl;
  uploaded = refl;
  taken = coalesce_self ph.taken_at;
  lat = coalesce_self ph.lat;
  lon = coalesce_self ph.lon;
}

pub Keeps-trans : (a b c : Photo) → Keeps a b → Keeps b c → Keeps a c
Keeps-trans a b c h k = record {
  execution = k.execution ∙ h.execution;
  kind = k.kind ∙ h.kind;
  key = k.key ∙ h.key;
  uploaded = k.uploaded ∙ h.uploaded;
  taken = coalesce_trans a.taken_at b.taken_at c.taken_at h.taken k.taken;
  lat = coalesce_trans a.lat b.lat c.lat h.lat k.lat;
  lon = coalesce_trans a.lon b.lon c.lon h.lon k.lon;
}

coalesce_absorb : {A : Type 0} → (a b : Option A) → coalesce a (coalesce a b) ≡ coalesce a b
coalesce_absorb none b = refl
coalesce_absorb (some x) b = refl

pub confirmed-Keeps :
    (now t : ℕ) (a : ConfirmPhotoParams) (ph : Photo)
    → ph.uploaded_at ≡ some t
    → Keeps ph (confirmed_photo now a ph)
confirmed-Keeps now t a ph h = record {
  execution = refl;
  kind = refl;
  key = refl;
  uploaded = rw h refl;
  taken = coalesce_absorb ph.taken_at a.taken_at;
  lat = coalesce_absorb ph.lat a.lat;
  lon = coalesce_absorb ph.lon a.lon;
}
