-- ===== src/History/Paths.antt =====
-- The files that the downloads of lib/data/historical_data.cpp are saved to.
use calm_trading_system.Base.{
  ℕ, String, string_eq, nat_eq, Bool-cases, inl, inr, ◌==◌, ◌≡◌, ◌≢◌, refl, List, [], ◌∷◌, map,
  some, ok, All, arith,
}
use Prim.Native.Char.{Char, code}
use text.Mathlib.TextLemmas.{append_cancel_left, append_cancel_right}
use calm_trading_system.Utils.{◌&◌, codes}
use calm_trading_system.Utils.Split.{Without}
use calm_trading_system.Yaml.{Document}
use calm_trading_system.History.{HistBarReq}
use calm_trading_system.History.Config.{replace, clean, save_path, add_downloads}

-- The text without the bytes of the old character, and without another that it does not have.
replace-Without :
    (old : ℕ) (new : Char) (s : String) → old ≢ code new → Without old (codes (replace old new s))
unfolding replace
replace-Without old new String.[] h = tt
replace-Without old new (String.◌∷◌ c s) h = elim (Bool-cases (code c == old)) [
  | inl hit ↦ rw hit (h, replace-Without old new s h)
  | inr miss ↦ rw miss ((λ e. ground arith), replace-Without old new s h)
]

replace-stays :
    (old other : ℕ) (new : Char) (s : String)
    → other ≢ code new
    → Without other (codes s)
    → Without other (codes (replace old new s))
unfolding replace
replace-stays old other new String.[] h k = tt
replace-stays old other new (String.◌∷◌ c s) h k = elim (Bool-cases (code c == old)) [
  | inl hit ↦ rw hit (h, replace-stays old other new s h k.1)
  | inr miss ↦ rw miss (k.0, replace-stays old other new s h k.1)
]

save_path-name :
    (root_path type st en name other : String)
    → save_path root_path name type st en ≡ save_path root_path other type st en
    → name ≡ other
unfolding save_path
save_path-name root_path type st en name other h =
    let rest = "-" & type & "/" & st & "-" & en & ".csv" in
    append_cancel_right name other rest (
      append_cancel_left "/" (name & rest) (other & rest)
        (append_cancel_left root_path ("/" & name & rest) ("/" & other & rest) h))

-- The elements are different from each other.
abbrev pub AreDifferent {ℓ} : {A : Type ℓ} → List A → Type ℓ
AreDifferent [] = Unit
AreDifferent (x ∷ xs) = All (λ y. x ≢ y) xs × AreDifferent xs

-- The scalars of a configuration, and the name and the symbol of each download.
pub record Settings : Type 0 where
  pub root_path : String
  pub start : String
  pub end : String
  pub timezone : String
  pub type : String
  pub downloads : List (String × String)

-- The request for one download.
abbrev pub request_for : Settings → String × String → HistBarReq
request_for c (name, symbol) = record {
  symbol = symbol;
  start = c.start;
  end = c.end;
  tz = c.timezone;
  wts = c.type;
  save_path = save_path c.root_path name c.type (clean c.start) (clean c.end);
}

pub add_downloads-all :
    (c : Settings) (ds : List (String × String))
    → add_downloads c.root_path c.start c.end c.timezone c.type (map (λ e. (some e.0, some e.1)) ds)
      ≡ ok (map (request_for c) ds)
unfolding add_downloads
add_downloads-all c [] = refl
add_downloads-all c ((name, symbol) ∷ ds) = rw (add_downloads-all c ds) refl

pub files-different :
    (c : Settings) (ds : List (String × String))
    → AreDifferent (map (λ e. e.0) ds)
    → AreDifferent (map (λ e. (request_for c e).save_path) ds)
files-different c [] h = tt
files-different c ((name, symbol) ∷ ds) h = (others ds h.0, files-different c ds h.1)
  where
    others :
        (es : List (String × String))
        → All (λ y. name ≢ y) (map (λ e. e.0) es)
        → All
            (λ y. (request_for c (name, symbol)).save_path ≢ y)
            (map (λ e. (request_for c e).save_path) es)
    others [] k = tt
    others ((other, s) ∷ es) k = (
      (λ e. k.0 (save_path-name c.root_path c.type (clean c.start) (clean c.end) name other e)),
      others es k.1,
    )

pub clean-Without : (s : String) → Without b' ' (codes (clean s)) × Without b':' (codes (clean s))
unfolding clean
clean-Without s = (
  replace-stays b':' b' ' "_" (replace b' ' "_" s) (λ e. cc) (replace-Without b' ' "_" s (λ e. cc)),
  replace-Without b':' "_" (replace b' ' "_" s) (λ e. cc),
)

module _ {D : Type 0} where
  -- The document has the settings.
  pub record Has (cfg : Document D) (c : Settings) : Type 0 where
    pub root_folder : cfg.texts "root_folder" ≡ some c.root_path
    pub start_text : cfg.texts "start" ≡ some c.start
    pub end_text : cfg.texts "end" ≡ some c.end
    pub zone : cfg.texts "timezone" ≡ some c.timezone
    pub kind : cfg.texts "type" ≡ some c.type
    pub entries : cfg.text_entries "downloads" ≡ map (λ e. (some e.0, some e.1)) c.downloads
