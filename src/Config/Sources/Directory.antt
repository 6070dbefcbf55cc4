-- ===== src/Config/Sources/Directory.antt =====
-- config_support.go: what the files of a directory come to.
use k8s_controller_lib.Prelude.{
  ◌≡◌, ◌≢◌, refl, sym, ap, ◌⊎◌, inl, inr, Bool, false, List, [], ◌∷◌, ◌++◌,
}
use mathlib.Core.Path.{subst}
use k8s_controller_lib.Runtime.Errors.{GoError, plain, wrap}
use k8s_controller_lib.Runtime.Exec.{Result, ok, err}
use k8s_controller_lib.Util.Text.{Text}
use k8s_controller_lib.Config.Sources.{ViperApi, end_loop, load_from_directory, load_listing}
use k8s_controller_lib.Config.Sources.Names.{Listed, visible, visible-Listed}
use k8s_controller_lib.Config.Sources.Reading.{not_empty, Read, Comes, load_entries-Comes}

module _ {V D M : Type 0} (api : ViperApi V D M) where
  -- The end of the loop, by the files that were loaded.
  abbrev pub Ends : List Text → Result (Unit {0}) → Type 0
  Ends loaded r =
      ((loaded ≡ []) × (r ≡ err (plain "no configuration files found in directory")))
      ⊎ ((loaded ≢ []) × (r ≡ ok tt))

  end_loop-Ends : (loaded : List Text) → Ends loaded (end_loop (not_empty loaded))
  unfolding end_loop
  end_loop-Ends [] = inl (refl, refl)
  end_loop-Ends (path ∷ loaded) = inr ((λ e. cc e), refl)

  -- Every file was read, in order.
  abbrev pub ReadsAll : List Text → V → Result (Unit {0}) × V → Type 0
  ReadsAll paths viper result =
      (loaded : List Text) × Read api paths viper loaded result.1 × Ends loaded result.0

  -- The merge of a file failed; the ones before it were read, and the ones after it were not.
  abbrev pub MergeFails : List Text → V → Result (Unit {0}) × V → Type 0
  MergeFails paths viper result =
      (done rest loaded : List Text) × (path : Text) × (viper1 viper2 : V) × (settings : M)
      × (e : GoError) × (paths ≡ done ++ path ∷ rest)
      × Read api done viper loaded viper1
      × (api.read_settings path ≡ ok settings)
      × (api.merge_config_map settings viper1 ≡ (err e, viper2))
      × (result ≡ (err (wrap "failed to merge config" e), viper2))

  Comes-cases :
      (paths : List Text) (viper : V) (result : Result (Unit {0}) × V)
      → Comes api paths false viper result
      → ReadsAll paths viper result ⊎ MergeFails paths viper result
  Comes-cases paths viper result comes = elim comes [
    | inl (loaded, viper1, read, computes) ↦ inl (
      loaded,
      subst (Read api paths viper loaded) (sym (ap (λ p. p.1) computes)) read,
      subst (Ends loaded) (sym (ap (λ p. p.0) computes)) (end_loop-Ends loaded),
    )
    | inr failed ↦ inr failed
  ]

  -- What `loadFromDirectory` does. Where the directory cannot be listed, it returns the error and the viper
  -- is unchanged. Else it reads the files of the listing that are neither directories nor hidden by a
  -- leading dot, in order: the settings of a file that viper reads are merged; of another file the content,
  -- trimmed, is `Set` under the file's name without its extension, or under the whole name if nothing is
  -- left; a file that cannot be read at all is left out. It stops with an error at a merge that fails, and
  -- otherwise succeeds exactly if some file was loaded.
  pub load_from_directory_cases :
      (dir : Text) (viper : V)
      → ((e : GoError) × (api.read_dir dir ≡ err e)
          × (load_from_directory api dir viper ≡ (err (wrap "failed to read directory" e), viper)))
        ⊎ ((entries : List (Text × Bool)) × (paths : List Text) × (api.read_dir dir ≡ ok entries)
            × Listed api dir entries paths
            × (ReadsAll paths viper (load_from_directory api dir viper)
                ⊎ MergeFails paths viper (load_from_directory api dir viper)))
  unfolding load_from_directory load_listing
  load_from_directory_cases dir viper = listing (api.read_dir dir) refl
    where
      listing :
          (answer : Result (List (Text × Bool)))
          → api.read_dir dir ≡ answer
          → ((e : GoError) × (answer ≡ err e)
              × (load_listing api dir viper answer
                  ≡ (err (wrap "failed to read directory" e), viper)))
            ⊎ ((entries : List (Text × Bool)) × (paths : List Text) × (answer ≡ ok entries)
                × Listed api dir entries paths
                × (ReadsAll paths viper (load_listing api dir viper answer)
                    ⊎ MergeFails paths viper (load_listing api dir viper answer)))
      listing (err e) answers = inl (e, refl, refl)
      listing (ok entries) answers = inr (
        entries,
        visible api dir entries,
        refl,
        visible-Listed api dir entries,
        Comes-cases (visible api dir entries) viper _
            (load_entries-Comes api dir entries false viper),
      )
