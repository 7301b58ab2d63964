-- ===== src/TacticalMap/Loading/Loaded.antt =====
-- app/map: the configurations that `LoadConfig` returns.
use tac_os.Base.{
  ℕ, ◌≡◌, refl, subst, arith, ltb, ℤ, int_eq, int_eq→≡, if◌then◌else◌, Bool, true, false, not, ◌||◌,
  Bytes, Option, none, some,
}
use tac_os.TacticalMap.Config.{Geo, Config, ConfigError, validate}
use tac_os.TacticalMap.Loading.{
  Files, LoadedConfig, loaded, load_failed, LoadError, unopened, too_large, not_one_object,
  image_unopened, wrong_size, on_image_size, on_absolute, on_validated, on_decoded, on_size,
  load_config,
}

-- A configuration as it was decoded and checked, with the path and the size of its PNG.
pub record IsLoaded {F : Type 0} ⦃geo : Geo F⦄ (files : Files F) (cfg : Config F) : Type 0 where
  pub source : Config F
  pub decoded : files.decoded ≡ some source
  pub valid : validate source ≡ none
  pub resolved : files.absolute source.image ≡ some cfg.image
  pub same : cfg ≡ record source { image = cfg.image }
  pub png : files.image_size cfg.image ≡ some (cfg.width, cfg.height)

-- a test that must hold
kept :
    {F : Type 0} (b : Bool) (e : LoadError) (r : LoadedConfig F) {cfg : Config F}
    → (if b then r else load_failed e) ≡ loaded cfg
    → (b ≡ true) × (r ≡ loaded cfg)
kept true e r h = (refl, h)
kept false e r h = absurd (never h)
  where
    never : {F : Type 0} {cfg : Config F} → load_failed e ≡ loaded cfg → ⊥
    never k = cc

-- a test that must not
dropped :
    {F : Type 0} (b : Bool) (e : LoadError) (r : LoadedConfig F) {cfg : Config F}
    → (if b then load_failed e else r) ≡ loaded cfg
    → (b ≡ false) × (r ≡ loaded cfg)
dropped false e r h = (refl, h)
dropped true e r h = absurd (never h)
  where
    never : {F : Type 0} {cfg : Config F} → load_failed e ≡ loaded cfg → ⊥
    never k = cc

loaded_inj : {F : Type 0} {a b : Config F} → loaded a ≡ loaded b → a ≡ b
loaded_inj e = cc

module _ {F : Type 0} ⦃geo : Geo F⦄ (files : Files F) {cfg : Config F} where
  sized :
      (source : Config F) (path : Bytes) (o : Option (ℤ × ℤ))
      → files.image_size path ≡ o
      → files.decoded ≡ some source
      → validate source ≡ none
      → files.absolute source.image ≡ some path
      → on_image_size (record source { image = path }) o ≡ loaded cfg
      → IsLoaded files cfg
  unfolding on_image_size
  sized source path none p d v a h = cc
  sized source path (some (width, height)) p d v a h =
      let (size_ok, same) =
        dropped (not (int_eq width source.width) || not (int_eq height source.height)) wrong_size _
          h in
      let w : int_eq width source.width ≡ true = ground arith in
      let k : int_eq height source.height ≡ true = ground arith in
      subst (IsLoaded files) (loaded_inj same) (record {
        source = source;
        decoded = d;
        valid = v;
        resolved = a;
        same = refl;
        png = rw (p, int_eq→≡ width source.width w, int_eq→≡ height source.height k) refl;
      })

  resolved :
      (source : Config F) (o : Option Bytes)
      → files.absolute source.image ≡ o
      → files.decoded ≡ some source
      → validate source ≡ none
      → on_absolute files source o ≡ loaded cfg
      → IsLoaded files cfg
  unfolding on_absolute
  resolved source none a d v h = cc
  resolved source (some path) a d v h =
      let (_, k) = kept (files.image_opened path) image_unopened _ h in
      sized source path (files.image_size path) refl d v a k

  validated :
      (source : Config F) (o : Option ConfigError)
      → validate source ≡ o
      → files.decoded ≡ some source
      → on_validated files source o ≡ loaded cfg
      → IsLoaded files cfg
  unfolding on_validated
  validated source none v d h = resolved source (files.absolute source.image) refl d v h
  validated source (some e) v d h = cc

  decoded :
      (o : Option (Config F))
      → files.decoded ≡ o
      → on_decoded files o ≡ loaded cfg
      → IsLoaded files cfg
  unfolding on_decoded
  decoded none d h = cc
  decoded (some source) d h =
      let (_, k) = kept files.at_end not_one_object _ h in
      validated source (validate source) refl d k

  sized_file : (o : Option ℕ) → on_size files o ≡ loaded cfg → IsLoaded files cfg
  unfolding on_size
  sized_file none h = cc
  sized_file (some n) h =
      let (_, k) = dropped (ltb 65536 n) too_large _ h in decoded files.decoded refl k

  -- A configuration that `LoadConfig` returns is the one that was decoded, which `Validate` accepts, with
  -- the absolute path of its image, and the PNG at that path has the width and height that it gives.
  pub load_config-IsLoaded : load_config files ≡ loaded cfg → IsLoaded files cfg
  unfolding load_config
  load_config-IsLoaded h = let (_, k) = kept files.opened unopened _ h in sized_file files.size k
