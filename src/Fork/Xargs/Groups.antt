-- ===== src/Fork/Xargs/Groups.antt =====
-- 1-fork/xargs.c: the runs share the lines out.
use sistemas_operativos_fiub.Common.{
  ℕ, ◌≡◌, refl, sym, ap, ◌∙◌, ◌≢◌, ◌<◌, Bool, true, List, [], ◌∷◌, ◌++◌, arith, length,
  length-append, ==-ne,
}
use mathlib.Core.List.{append-nil, append_assoc}
use native.Mathlib.Decide.{ℕ_discrete}
use sistemas_operativos_fiub.Fs.Strings.{IsText}
use sistemas_operativos_fiub.Fork.Xargs.{
  Xargs, linea_sin_fin, leer_comandos, verificar_numero_argumentos_alcanzado, leer_lineas, xargs,
}

abbrev pub con_comando : List ℕ → List (List (List ℕ)) → List (List (List ℕ))
con_comando comando [] = []
con_comando comando (g ∷ gs) = (comando ∷ g) ∷ con_comando comando gs

abbrev pub concat : List (List (List ℕ)) → List (List ℕ)
concat [] = []
concat (g ∷ gs) = g ++ concat gs

abbrev pub sin_fin : List (List ℕ) → List (List ℕ)
sin_fin [] = []
sin_fin (l ∷ ls) = linea_sin_fin l ∷ sin_fin ls

abbrev pub AllLength : ℕ → List (List (List ℕ)) → Type 0
AllLength n [] = Unit {0}
AllLength n (g ∷ gs) = (length g ≡ n) × AllLength n gs

module _ (forks : ℕ → Bool) (works : (i : ℕ) → forks i ≡ true) (nargs : ℕ) (comando : List ℕ) where
  full_group :
      (x : Xargs) (linea : List ℕ)
      → length (x.comandos ++ (linea_sin_fin linea ∷ [])) ≡ nargs
      → verificar_numero_argumentos_alcanzado forks nargs comando
          (record x { comandos = x.comandos ++ (linea_sin_fin linea ∷ []) })
        ≡ record {
          comandos = [];
          corridas = x.corridas ++ ((comando ∷ (x.comandos ++ (linea_sin_fin linea ∷ []))) ∷ []);
          sigue = x.sigue;
        }
  unfolding verificar_numero_argumentos_alcanzado leer_comandos
  full_group x linea e = rw (works (length x.corridas)) (ground (arith, e))

  open_group :
      (x : Xargs) (linea : List ℕ)
      → length (x.comandos ++ (linea_sin_fin linea ∷ [])) ≢ nargs
      → verificar_numero_argumentos_alcanzado forks nargs comando
          (record x { comandos = x.comandos ++ (linea_sin_fin linea ∷ []) })
        ≡ record x { comandos = x.comandos ++ (linea_sin_fin linea ∷ []) }
  unfolding verificar_numero_argumentos_alcanzado
  open_group x linea ne = rw (==-ne _ nargs ne) refl

  -- What the loop makes of a state: groups of the right length, and fewer lines left than a group.
  record Shared (x : Xargs) (lineas : List (List ℕ)) (y : Xargs) : Type 0 where
    pub groups : List (List (List ℕ))
    pub runs : y.corridas ≡ x.corridas ++ con_comando comando groups
    pub full : AllLength nargs groups
    pub left : length y.comandos < nargs
    pub goes_on : y.sigue ≡ true
    pub lines : concat groups ++ y.comandos ≡ x.comandos ++ sin_fin lineas

  with_group :
      (x : Xargs) (linea : List ℕ) (lineas : List (List ℕ)) (y : Xargs)
      → length (x.comandos ++ (linea_sin_fin linea ∷ [])) ≡ nargs
      → Shared
          (record {
            comandos = [];
            corridas = x.corridas ++ ((comando ∷ (x.comandos ++ (linea_sin_fin linea ∷ []))) ∷ []);
            sigue = x.sigue;
          })
          lineas
          y
      → Shared x (linea ∷ lineas) y
  with_group x linea lineas y e s = record {
    groups = (x.comandos ++ (linea_sin_fin linea ∷ [])) ∷ s.groups;
    runs =
        s.runs
        ∙ append_assoc x.corridas ((comando ∷ (x.comandos ++ (linea_sin_fin linea ∷ []))) ∷ [])
            (con_comando comando s.groups);
    full = (e, s.full);
    left = s.left;
    goes_on = s.goes_on;
    lines =
        append_assoc (x.comandos ++ (linea_sin_fin linea ∷ [])) (concat s.groups) y.comandos
        ∙ (ap (λ (l : List (List ℕ)). (x.comandos ++ (linea_sin_fin linea ∷ [])) ++ l) s.lines
            ∙ append_assoc x.comandos (linea_sin_fin linea ∷ []) (sin_fin lineas));
  }

  with_line :
      (x : Xargs) (linea : List ℕ) (lineas : List (List ℕ)) (y : Xargs)
      → Shared (record x { comandos = x.comandos ++ (linea_sin_fin linea ∷ []) }) lineas y
      → Shared x (linea ∷ lineas) y
  with_line x linea lineas y s = record {
    groups = s.groups;
    runs = s.runs;
    full = s.full;
    left = s.left;
    goes_on = s.goes_on;
    lines = s.lines ∙ append_assoc x.comandos (linea_sin_fin linea ∷ []) (sin_fin lineas);
  }

  leer_lineas-step :
      (x y : Xargs) (linea : List ℕ) (lineas : List (List ℕ))
      → verificar_numero_argumentos_alcanzado forks nargs comando
          (record x { comandos = x.comandos ++ (linea_sin_fin linea ∷ []) })
        ≡ y
      → y.sigue ≡ true
      → leer_lineas forks nargs comando (linea ∷ lineas) x
        ≡ leer_lineas forks nargs comando lineas y
  unfolding leer_lineas
  leer_lineas-step x y linea lineas e on = ground (arith, e, on)

  leer_lineas-Shared :
      (lineas : List (List ℕ)) (x : Xargs)
      → length x.comandos < nargs
      → x.sigue ≡ true
      → Shared x lineas (leer_lineas forks nargs comando lineas x)
  unfolding leer_lineas
  leer_lineas-Shared [] x small on = record {
    groups = [];
    runs = sym (append-nil x.corridas);
    full = tt;
    left = small;
    goes_on = on;
    lines = sym (append-nil x.comandos);
  }
  leer_lineas-Shared (linea ∷ lineas) x small on =
      elim (ℕ_discrete (length (x.comandos ++ (linea_sin_fin linea ∷ []))) nargs) [
        | yes e ↦ rw (leer_lineas-step x _ linea lineas (full_group x linea e) on) (
            with_group x linea lineas _ e (
              leer_lineas-Shared lineas
                (record {
                  comandos = [];
                  corridas =
                      x.corridas ++ ((comando ∷ (x.comandos ++ (linea_sin_fin linea ∷ []))) ∷ []);
                  sigue = x.sigue;
                })
                (omega (arith, small)) on))
        | no ne ↦ rw (leer_lineas-step x _ linea lineas (open_group x linea ne) on) (
            with_line x linea lineas _ (
              leer_lineas-Shared lineas
                (record x { comandos = x.comandos ++ (linea_sin_fin linea ∷ []) })
                (omega (arith, small, ne, length-append x.comandos (linea_sin_fin linea ∷ []))) on))
      ]

-- A line of the input ends in a newline.
abbrev pub con_fin : List (List ℕ) → List (List ℕ)
con_fin [] = []
con_fin (t ∷ ts) = (t ++ (b'\n' ∷ [])) ∷ con_fin ts

abbrev pub AllText : List (List ℕ) → Type 0
AllText [] = Unit {0}
AllText (t ∷ ts) = IsText t × AllText ts

linea_sin_fin-text : (t : List ℕ) (c : ℕ) → IsText t → linea_sin_fin (t ++ (c ∷ [])) ≡ t
unfolding linea_sin_fin
linea_sin_fin-text [] c text = refl
linea_sin_fin-text (x ∷ []) c (ne, text) = rw (==-ne x 0 ne) refl
linea_sin_fin-text (x ∷ y ∷ t) c (ne, text) =
    rw (==-ne x 0 ne) (ap (λ (l : List ℕ). x ∷ l) (linea_sin_fin-text (y ∷ t) c text))

sin_fin-con_fin : (textos : List (List ℕ)) → AllText textos → sin_fin (con_fin textos) ≡ textos
sin_fin-con_fin [] text = refl
sin_fin-con_fin (t ∷ ts) (text, texts) =
    rw (linea_sin_fin-text t b'\n' text)
      (ap (λ (l : List (List ℕ)). t ∷ l) (sin_fin-con_fin ts texts))

-- Where every fork works, the command can be executed and every line is a text without NUL and a
-- newline, the runs after the first NARGS lines, the next NARGS and so on have NARGS arguments each; a
-- last run takes what is left, fewer than NARGS and perhaps none; and the arguments of all runs, put
-- together, are the texts of the lines in their order.
pub xargs_lem :
    (forks : ℕ → Bool) (nargs : ℕ) (comando : List ℕ) (textos : List (List ℕ))
    → ((i : ℕ) → forks i ≡ true)
    → 0 < nargs
    → AllText textos
    → (groups : List (List (List ℕ))) × (last : List (List ℕ)) × (xargs forks nargs comando
          (con_fin textos)
        ≡ con_comando comando groups ++ ((comando ∷ last) ∷ []))
      × AllLength nargs groups
      × (length last < nargs)
      × (concat groups ++ last ≡ textos)
unfolding xargs leer_comandos
xargs_lem forks nargs comando textos works pos texts =
    let start : Xargs = record { comandos = []; corridas = []; sigue = true } in
    let s = leer_lineas-Shared forks works nargs comando (con_fin textos) start pos refl in
    let left = (leer_lineas forks nargs comando (con_fin textos) start).comandos in
    (
      s.groups,
      left,
      rw (xargs, s.goes_on, leer_comandos, works)
          (ap (λ (l : List (List (List ℕ))). l ++ ((comando ∷ left) ∷ [])) s.runs),
      s.full,
      s.left,
      s.lines ∙ sin_fin-con_fin textos texts,
    )
