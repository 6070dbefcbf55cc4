-- ===== src/Config/Sources/Reading.antt =====
-- config_support.go: the loop over the files of a directory.
use k8s_controller_lib.Prelude.{
  ◌≡◌, refl, sym, ap, ◌∙◌, ◌⊎◌, inl, inr, Bool, true, false, ◌||◌, List, [], ◌∷◌, ◌++◌,
  if◌then◌else◌,
}
use mathlib.Core.Path.{subst}
use k8s_controller_lib.Runtime.Errors.{GoError, wrap}
use k8s_controller_lib.Runtime.Exec.{Result, ok, err}
use k8s_controller_lib.Util.Text.{trim_space, Text}
use k8s_controller_lib.Config.Sources.{
  ViperApi, is_hidden, simple_key, simple_content, load_simple_file, simple_turn, merged_turn,
  load_turn, end_loop, go_on, load_entries,
}
use k8s_controller_lib.Config.Sources.Names.{KeyOf, visible, simple_key-KeyOf}

abbrev pub not_empty : List Text → Bool
not_empty [] = false
not_empty (x ∷ xs) = true

counted :
    (before now : Bool) (path : Text) (loaded : List Text)
    → ((before || now) || not_empty loaded)
      ≡ (before || not_empty (if now then path ∷ loaded else loaded))
counted true now path loaded = refl
counted false true path loaded = refl
counted false false path loaded = refl

module _ {V D M : Type 0} (api : ViperApi V D M) where
  -- The files were read in order, from one viper to another, and these of them were loaded.
  pub data Read : List Text → V → List Text → V → Type 0 where
    no_files : {viper : V} → Read [] viper [] viper
    merged :
        {path : Text} {paths loaded : List Text} {viper viper1 viper2 : V} (settings : M)
        → api.read_settings path ≡ ok settings
        → api.merge_config_map settings viper ≡ (ok tt, viper1)
        → Read paths viper1 loaded viper2
        → Read (path ∷ paths) viper (path ∷ loaded) viper2
    set_as_text :
        {path : Text} {paths loaded : List Text} {viper viper1 : V} (e : GoError)
        (content key : Text)
        → api.read_settings path ≡ err e
        → api.read_file path ≡ ok content
        → KeyOf api (api.base path) key
        → Read paths (api.set key (trim_space content) viper) loaded viper1
        → Read (path ∷ paths) viper (path ∷ loaded) viper1
    unreadable :
        {path : Text} {paths loaded : List Text} {viper viper1 : V} (e e1 : GoError)
        → api.read_settings path ≡ err e
        → api.read_file path ≡ err e1
        → Read paths viper loaded viper1
        → Read (path ∷ paths) viper loaded viper1

  -- What the loop comes to. Either every file was read, and it succeeds exactly if one was loaded; or the
  -- merge of a file failed, where the ones before it were read and the ones after it were not.
  abbrev pub Comes : List Text → Bool → V → Result (Unit {0}) × V → Type 0
  Comes paths before viper result =
      ((loaded : List Text) × (viper1 : V) × Read paths viper loaded viper1
        × (result ≡ (end_loop (before || not_empty loaded), viper1)))
      ⊎ ((done rest loaded : List Text) × (path : Text) × (viper1 viper2 : V) × (settings : M)
          × (e : GoError) × (paths ≡ done ++ path ∷ rest)
          × Read done viper loaded viper1
          × (api.read_settings path ≡ ok settings)
          × (api.merge_config_map settings viper1 ≡ (err e, viper2))
          × (result ≡ (err (wrap "failed to merge config" e), viper2)))

  -- One more file in front
  extend :
      (path : Text) (paths : List Text) (before now : Bool) (viper viper1 : V)
      (result : Result (Unit {0}) × V)
      → ((paths1 loaded : List Text) (viper2 : V)
          → Read paths1 viper1 loaded viper2
          → Read (path ∷ paths1) viper (if now then path ∷ loaded else loaded) viper2)
      → Comes paths (before || now) viper1 result
      → Comes (path ∷ paths) before viper result
  extend path paths before now viper viper1 result step comes = elim comes [
    | inl (loaded, viper2, read, computes) ↦ inl (
      (if now then path ∷ loaded else loaded),
      viper2,
      step _ _ _ read,
      computes ∙ ap (λ b. (end_loop b, viper2)) (counted before now path loaded),
    )
    | inr
          (
            done, rest, loaded, bad, viper2, viper3, settings, e, split, read, reads, fails,
            computes,
          ) ↦
        inr (
          path ∷ done,
          rest,
          (if now then path ∷ loaded else loaded),
          bad,
          viper2,
          viper3,
          settings,
          e,
          ap (λ z. path ∷ z) split,
          step _ _ _ read,
          reads,
          fails,
          computes,
        )
  ]

  skip :
      (path : Text) (paths : List Text) (before : Bool) (viper : V) (result : Result (Unit {0}) × V)
      (e e1 : GoError)
      → api.read_settings path ≡ err e
      → api.read_file path ≡ err e1
      → Comes paths before viper result
      → Comes (path ∷ paths) before viper result
  skip path paths before viper result e e1 no_settings no_content comes = elim comes [
    | inl (loaded, viper2, read, computes) ↦
        inl (loaded, viper2, unreadable e e1 no_settings no_content read, computes)
    | inr
          (
            done, rest, loaded, bad, viper2, viper3, settings, e2, split, read, reads, fails,
            computes,
          ) ↦
        inr (
          path ∷ done,
          rest,
          loaded,
          bad,
          viper2,
          viper3,
          settings,
          e2,
          ap (λ z. path ∷ z) split,
          unreadable e e1 no_settings no_content read,
          reads,
          fails,
          computes,
        )
  ]

  Bool-or_true : (b : Bool) → (b || true) ≡ true
  Bool-or_true true = refl
  Bool-or_true false = refl

  Bool-or_false : (b : Bool) → (b || false) ≡ b
  Bool-or_false true = refl
  Bool-or_false false = refl

  module _ (path : Text) (paths : List Text) (before : Bool) (viper : V)
      (next : Bool → V → Result (Unit {0}) × V)
      (rest : (before1 : Bool) (viper1 : V)
        → Comes paths before1 viper1 (next before1 viper1)) where
    text_turn :
        (e : GoError) (content : Result Text)
        → api.read_settings path ≡ err e
        → api.read_file path ≡ content
        → Comes
            (path ∷ paths)
            before
            viper
            (go_on api before next (simple_turn api (simple_content api path viper content)))
    unfolding go_on simple_turn simple_content
    text_turn e (err e1) no_settings no_content =
        skip path paths before viper _ e e1 no_settings no_content (
          subst (λ b. Comes paths before viper (next b viper)) (sym (Bool-or_false before))
            (rest before viper))
    text_turn e (ok content) no_settings gives =
        extend path paths before true viper _ _
          (λ paths1 loaded viper2 read.
            set_as_text e content (simple_key api (api.base path)) no_settings gives
              (simple_key-KeyOf api (api.base path)) read)
          (rest (before || true) _)

    merge_turn :
        (settings : M) (answer : Result (Unit {0}) × V)
        → api.read_settings path ≡ ok settings
        → api.merge_config_map settings viper ≡ answer
        → Comes (path ∷ paths) before viper (go_on api before next (merged_turn api answer))
    unfolding go_on merged_turn
    merge_turn settings (err e, viper1) reads fails =
        inr ([], paths, [], path, viper, viper1, settings, e, refl, no_files, reads, fails, refl)
    merge_turn settings (ok tt, viper1) reads merges =
        extend path paths before true viper viper1 _
          (λ paths1 loaded viper2 read. merged settings reads merges read)
          (rest (before || true) viper1)

    file_turn :
        (answer : Result M)
        → api.read_settings path ≡ answer
        → Comes
            (path ∷ paths)
            before
            viper
            (go_on api before next (load_turn api path viper answer))
    unfolding load_turn load_simple_file
    file_turn (err e) no_settings = text_turn e (api.read_file path) no_settings refl
    file_turn (ok settings) reads =
        merge_turn settings (api.merge_config_map settings viper) reads refl

    one_entry :
        (left_out : Bool)
        → Comes (if left_out then paths else path ∷ paths) before viper (
            go_on api before next (
              if left_out
              then (ok false, viper)
              else load_turn api path viper (api.read_settings path)))
    unfolding go_on
    one_entry true =
        subst (λ b. Comes paths b viper (next (before || false) viper)) (Bool-or_false before)
          (rest (before || false) viper)
    one_entry false = file_turn (api.read_settings path) refl

  pub load_entries-Comes :
      (dir : Text) (entries : List (Text × Bool)) (before : Bool) (viper : V)
      → Comes (visible api dir entries) before viper (load_entries api dir entries before viper)
  unfolding load_entries
  load_entries-Comes dir [] before viper =
      inl ([], viper, no_files, ap (λ b. (end_loop b, viper)) (sym (Bool-or_false before)))
  load_entries-Comes dir ((name, is_dir) ∷ entries) before viper =
      one_entry (api.join dir name) (visible api dir entries) before viper
        (load_entries api dir entries) (load_entries-Comes dir entries) (is_dir || is_hidden name)
