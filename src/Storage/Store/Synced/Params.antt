-- ===== src/Storage/Store/Synced/Params.antt =====
-- What the operations of src/storage/mod.rs know of their parameters.
use omniportal.Base.{
  ℕ, ◌%◌, ◌^◌, ◌<◌, ◌≡◌, refl, List, [], ◌∷◌, Bool, true, false, ◌&&◌, not, Option, none, some,
  length, arith, ◌==◌, leb, if◌then◌else◌, slice, drop, Bool-cases, Option-cases, ==_iff, inl, inr,
}
use mathlib.Core.Path.{subst}
use omniportal.Base.All.{All, All-take, All-drop, All-get_or}
use omniportal.Base.Bytes.{from_le_bytes16}
use omniportal.Base.Result.{ok}
use omniportal.Base.Utf8.{is_utf8}
use omniportal.Storage.Forms.{query_param, decode_hex_bytes, decode_pairs, nibbles}
use omniportal.Storage.Forms.Params.{IsByte, query_param-Utf8, parse_u32-lt, nibbles-lt}
use omniportal.Storage.Journal.Fields.{Fits}
use omniportal.Storage.Table.{StorageError, bad_request}
use omniportal.Storage.Store.{or_fail}
use omniportal.Storage.Store.Create.{catalog_index_of}
use omniportal.Storage.Store.Figures.{
  Figures, FiguresFit, SkylandersCatalogEntry, InfinityCatalogEntry, SkylandersEntryFits,
  InfinityEntryFits,
}
use omniportal.Storage.Store.Images.{
  ImportedSkylandersImage, ImportedInfinityImage, parse_skylanders, parse_infinity,
  infinity_image_bytes, nonzero,
}
use omniportal.Storage.Store.Import.{entry_index, infinity_index}
use omniportal.Storage.Store.Params.{required, required_number, number_param, as_u32}
use omniportal.Storage.Store.Synced.Blobs.{IsImage}
use omniportal.Storage.Store.Synced.Combine.{SkylandersImageFits, InfinityImageFits}
use omniportal.Storage.Store.Synced.Edit.{OptionalUtf8}

pub or_fail-ok :
    {A : Type 0} → (o : Option A) (e : StorageError) (a : A) → or_fail o e ≡ ok a → o ≡ some a
or_fail-ok none e a h = absurd (ground arith)
or_fail-ok (some b) e a h = ground arith

pub as_u32-lt : (o : Option (List ℕ)) (n : ℕ) → as_u32 o ≡ some n → n < 2 ^ 32
as_u32-lt none n h = absurd (ground arith)
as_u32-lt (some value) n h = parse_u32-lt value n h

module _ (query name : List ℕ) where
  pub required-Utf8 :
      (value : List ℕ) → All IsByte query → required query name ≡ ok value → is_utf8 value ≡ true
  required-Utf8 value all h =
      query_param-Utf8 query name value all
        (or_fail-ok (query_param query name) bad_request value h)

  pub required_number-lt : (n : ℕ) → required_number query name ≡ ok n → n < 2 ^ 32
  required_number-lt n h =
      as_u32-lt (query_param query name) n
        (or_fail-ok (as_u32 (query_param query name)) bad_request n h)

  pub number_param-Fits : Fits (2 ^ 32) (number_param query name)
  number_param-Fits = fits (as_u32 (query_param query name)) (as_u32-lt (query_param query name))
    where
      fits : (o : Option ℕ) → ((n : ℕ) → o ≡ some n → n < 2 ^ 32) → Fits (2 ^ 32) o
      fits none k = tt
      fits (some n) k = k n refl

  pub optional-Utf8 : All IsByte query → OptionalUtf8 (query_param query name)
  optional-Utf8 all = utf8 (query_param query name) (λ value. query_param-Utf8 query name value all)
    where
      utf8 :
          (o : Option (List ℕ))
          → ((value : List ℕ) → o ≡ some value → is_utf8 value ≡ true)
          → OptionalUtf8 o
      utf8 none k = tt
      utf8 (some value) k = k value refl

word-lt :
    (off : ℕ) (image : List ℕ) → All IsByte image → from_le_bytes16 (slice off 2 image) < 2 ^ 16
unfolding from_le_bytes16
word-lt off image all =
    let part = All-take IsByte 2 (drop off image) (All-drop IsByte off image all) in
    omega (
      arith,
      All-get_or IsByte (slice off 2 image) 0 0 (omega arith) part,
      All-get_or IsByte (slice off 2 image) 1 0 (omega arith) part,
    )

Fits-nonzero : (n : ℕ) → n < 2 ^ 32 → Fits (2 ^ 32) (nonzero n)
Fits-nonzero n h = either (n == 0)
  where
    either : (b : Bool) → Fits (2 ^ 32) (if b then none else some n)
    either true = tt
    either false = h

index-Fits :
    (o : Option SkylandersCatalogEntry)
    → ((e : SkylandersCatalogEntry) → o ≡ some e → SkylandersEntryFits e)
    → Fits (2 ^ 16) (entry_index o)
index-Fits none k = tt
index-Fits (some e) k = (k e refl).index_lt

infinity_index-Fits :
    (o : Option InfinityCatalogEntry)
    → ((e : InfinityCatalogEntry) → o ≡ some e → InfinityEntryFits e)
    → Fits (2 ^ 16) (infinity_index o)
infinity_index-Fits none k = tt
infinity_index-Fits (some e) k = (k e refl).index_lt

and_left : (a b : Bool) → a && b ≡ true → a ≡ true
and_left true b h = refl
and_left false b h = absurd (ground (arith, h))

module _ (figures : Figures) (fit : FiguresFit figures) (image : List ℕ) where
  pub parse_skylanders-Fits :
      (imported : ImportedSkylandersImage)
      → All IsByte image
      → parse_skylanders figures image ≡ some imported
      → SkylandersImageFits imported × IsImage image
  unfolding parse_skylanders
  parse_skylanders-Fits imported all h =
      elim (Bool-cases (figures.validate_image image && leb 0x1e (length image))) [
        | inr e ↦ absurd (ground (arith, e))
        | inl e ↦
            let character_id = from_le_bytes16 (slice 0x10 2 image) in
            let raw = from_le_bytes16 (slice 0x1c 2 image) in
            let built : ImportedSkylandersImage = record {
              character_id = character_id;
              variant_id = nonzero raw;
              catalog_entry = figures.find_skylanders_catalog_entry character_id raw;
            } in
            let same : built ≡ imported = ground (arith, e) in
            let fits : SkylandersImageFits built = record {
              index_fits = index-Fits built.catalog_entry (fit.find_skylanders character_id raw);
              character_fits = omega (arith, word-lt 0x10 image all);
              variant_fits = Fits-nonzero raw (omega (arith, word-lt 0x1c image all));
            } in
            (
              subst SkylandersImageFits same fits,
              omega (
                arith,
                fit.length-valid image
                    (and_left (figures.validate_image image) (leb 0x1e (length image)) e),
              ),
            )
      ]

  pub parse_infinity-Fits :
      (imported : ImportedInfinityImage)
      → parse_infinity figures image ≡ some imported
      → InfinityImageFits imported × IsImage image
  unfolding parse_infinity
  parse_infinity-Fits imported h = elim (Bool-cases (length image == infinity_image_bytes)) [
    | inr e ↦ absurd (ground (arith, e))
    | inl e ↦
        let number = figures.infinity_figure_number image in
        let built : ImportedInfinityImage = record {
          tag_id = slice 0 7 image;
          figure_number = number;
          catalog_entry = figures.find_infinity_catalog_entry number;
        } in
        let same : built ≡ imported = ground (arith, e) in
        let fits : InfinityImageFits built = record {
          index_fits = infinity_index-Fits built.catalog_entry (fit.find_infinity number);
          figure_fits = fit.figure_number_lt image;
        } in
        (subst InfinityImageFits same fits, omega (arith, (==_iff (length image) 320).0 e))
  ]

decode_pairs-IsByte : (value bytes : List ℕ) → decode_pairs value ≡ some bytes → All IsByte bytes
unfolding decode_pairs
decode_pairs-IsByte [] bytes h = subst (All IsByte) {x = []} (ground arith) tt
decode_pairs-IsByte (a ∷ []) bytes h = subst (All IsByte) {x = []} (ground arith) tt
decode_pairs-IsByte (h ∷ l ∷ rest) bytes e = elim (Option-cases (nibbles h l)) [
  | inl p ↦ absurd (ground (arith, p))
  | inr (c, p) ↦ elim (Option-cases (decode_pairs rest)) [
    | inl q ↦ absurd (ground (arith, p, q))
    | inr (out, q) ↦
        subst (All IsByte) {x = c ∷ out} (ground (arith, p, q))
          (nibbles-lt h l c p, decode_pairs-IsByte rest out q)
  ]
]

pub decode_hex_bytes-IsByte :
    (value bytes : List ℕ) → decode_hex_bytes value ≡ some bytes → All IsByte bytes
unfolding decode_hex_bytes
decode_hex_bytes-IsByte value bytes h = elim (Bool-cases (not (length value % 2 == 0))) [
  | inl e ↦ absurd (ground (arith, e))
  | inr e ↦ decode_pairs-IsByte value bytes (ground (arith, e))
]

pub catalog_index_of-lt : (o : Option ℕ) (n : ℕ) → catalog_index_of o ≡ some n → n < 2 ^ 16
catalog_index_of-lt none n h = absurd (ground arith)
catalog_index_of-lt (some value) n h = ground arith
