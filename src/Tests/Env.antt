-- ===== src/Tests/Env.antt =====
-- The theorems on the environments at concrete inputs.
use minim.Base.{◌≡◌, ◌⊎◌, true, false, refl, some, none, List, [], ◌∷◌, if◌then◌else◌, arith}
use minim.Object.{Addr, Mobj, fixnum, slots, vector, ◌=?◌}
use minim.Runtime.{Runtime, ok, error, write, unbound_variable}
use minim.Eval.Env.{top_env_lookup, top_env_define, top_env_set, env_lookup, env_set}
use minim.Eval.Env.Assoc
use minim.Eval.Env.TopLevel.{bind, top_env_lookup-define, top_env_set-assoc_set}
use minim.Eval.Env.Assoc.{TopEnv, assoc, assoc_set}
use minim.Eval.Env.Lexical
use minim.Eval.Env.Lexical.{Env, rib_get, rib_set, ribs_get, ribs_set, env_lookup_lem, env_set_lem}
use minim.Tests.{scope, x_sym, y_sym}
use minim.Object.{typed}

scope-TopEnv : TopEnv scope scope.ap scope.top_level_env ((x_sym, fixnum 5) ∷ [])
scope-TopEnv = Assoc.cons refl refl (omega arith) (omega arith) Assoc.nil

scope-Env : Env scope scope.ap (typed 96) ((y_sym ∷ fixnum 7 ∷ []) ∷ [])
scope-Env = Lexical.frame refl refl tt (omega arith) (omega arith) Lexical.nil

top_env_lookup-define_example :
    (s : Runtime) × (top_env_define x_sym (fixnum 8) scope ≡ ok tt s)
    × TopEnv s s.ap s.top_level_env (bind x_sym (fixnum 8) ((x_sym, fixnum 5) ∷ []))
    × ((j : Mobj)
        → top_env_lookup j s
          ≡ ok (if x_sym =? j then some (fixnum 8) else assoc j ((x_sym, fixnum 5) ∷ [])) s)
top_env_lookup-define_example =
    top_env_lookup-define scope ((x_sym, fixnum 5) ∷ []) x_sym (fixnum 8) scope-TopEnv

top_env_set-assoc_set_example :
    ((assoc y_sym ((x_sym, fixnum 5) ∷ []) ≡ none)
      × (top_env_set y_sym (fixnum 8) scope ≡ ok false scope))
    ⊎ ((v : Mobj) × (s : Runtime) × (assoc y_sym ((x_sym, fixnum 5) ∷ []) ≡ some v)
        × (top_env_set y_sym (fixnum 8) scope ≡ ok true s)
        × TopEnv s s.ap s.top_level_env (assoc_set y_sym (fixnum 8) ((x_sym, fixnum 5) ∷ [])))
top_env_set-assoc_set_example = top_env_set-assoc_set scope-TopEnv y_sym (fixnum 8)

env_lookup_lem_example :
    env_lookup (typed 96) y_sym scope ≡ (elim (ribs_get y_sym ((y_sym ∷ fixnum 7 ∷ []) ∷ [])) [
      | some u ↦ ok u scope
      | none ↦ elim (assoc y_sym ((x_sym, fixnum 5) ∷ [])) [
        | some u ↦ ok u scope
        | none ↦ error (unbound_variable y_sym) scope
      ]
    ])
env_lookup_lem_example = env_lookup_lem scope-Env scope-TopEnv y_sym

env_set_lem_example :
    ((ribs_get y_sym ((y_sym ∷ fixnum 7 ∷ []) ∷ []) ≡ none)
      × (env_set (typed 96) y_sym (fixnum 9) scope ≡ ok false scope))
    ⊎ ((u : Mobj) × (q : Addr) × (xs : List Mobj) × (ribs_get y_sym ((y_sym ∷ fixnum 7 ∷ []) ∷ [])
          ≡ some u)
        × (rib_get y_sym xs ≡ some u)
        × (scope.heap q ≡ some (slots vector xs))
        × (env_set (typed 96) y_sym (fixnum 9) scope
            ≡ ok true (write scope q (slots vector (rib_set y_sym (fixnum 9) xs))))
        × Env
            (write scope q (slots vector (rib_set y_sym (fixnum 9) xs)))
            scope.ap
            (typed 96)
            (ribs_set y_sym (fixnum 9) ((y_sym ∷ fixnum 7 ∷ []) ∷ [])))
env_set_lem_example = env_set_lem scope-Env y_sym (fixnum 9)
