-- ===== src/VoiceService/Runner/Triples.antt =====
-- What a call ensures: of its value where it returns, and of the world where it raises.
use repo_viva.Base.{ℕ, List, [], ◌∷◌, Result, ok, err}
use repo_viva.VoiceService.Runner.World.{
  Exception, Fault, goes, raises_before, raises_after, World, M, pure, raise, continue, ◌>>=◌,
  await, faulty, awaiting_with,
}
use repo_viva.VoiceService.Runner.Keeps.{Keeps, IsTimeless}

abbrev pub Post :
    {A : Type 0} → (A → World → Type 0) → (World → Type 0) → Result Exception A → World → Type 0
Post Q E (ok a) w = Q a w
Post Q E (err e) w = E w

-- From `P`, `m` returns with `Q` or raises with `E`.
pub record Triple {A : Type 0} (P : World → Type 0) (m : M A) (Q : A → World → Type 0)
    (E : World → Type 0) : Type 0 where
  pub at : (w : World) → P w → Post Q E (m w).0 (m w).1

module _ {A : Type 0} (P : World → Type 0) (Q : A → World → Type 0) (E : World → Type 0) where
  pub Triple-pure : (a : A) → ((w : World) → P w → Q a w) → Triple P (pure a) Q E
  Triple-pure a h = record { at = h }

  pub Triple-raise : (e : Exception) → ((w : World) → P w → E w) → Triple P (raise e) Q E
  Triple-raise e h = record { at = h }

  pub Triple-of_false : (m : M A) → ((w : World) → P w → ⊥) → Triple P m Q E
  Triple-of_false m h = record { at = λ w p. absurd (h w p) }

  faulty_at :
      (m : M A)
      → ((w : World) → P w → E w)
      → ((a : A) (w : World) → Q a w → E w)
      → Triple P m Q E
      → (fault : Fault) (w : World) → P w
      → Post Q E (faulty fault m w).0 (faulty fault m w).1
  faulty_at m pe qe t goes w h = t.at w h
  faulty_at m pe qe t (raises_before e) w h = pe w h
  faulty_at m pe qe t (raises_after e) w h = go (m w).0 (t.at w h)
    where
      go : (r : Result Exception A) → Post Q E r (m w).1 → E (m w).1
      go (ok a) k = qe a _ k
      go (err x) k = k

  pub Triple-await :
      (m : M A)
      → IsTimeless P
      → ((w : World) → P w → E w)
      → ((a : A) (w : World) → Q a w → E w)
      → Triple P m Q E
      → Triple P (await m) Q E
  unfolding await
  Triple-await m timeless pe qe t = record { at = λ w h. go w.script w h }
    where
      go :
          (s : List (ℕ × Fault)) (w : World)
          → P w
          → Post Q E (awaiting_with s m w).0 (awaiting_with s m w).1
      go [] w h = t.at w h
      go ((at_time, fault) ∷ rest) w h =
          faulty_at m pe qe t fault _ (timeless.moved w rest at_time h)

  -- What a call keeps, it ensures.
  pub Triple-of_keeps :
      (m : M A)
      → Keeps P m
      → ((a : A) (w : World) → P w → Q a w)
      → ((w : World) → P w → E w)
      → Triple P m Q E
  Triple-of_keeps m k q e = record { at = λ w h. go (m w).0 (k.at w h) }
    where
      go : {v : World} (r : Result Exception A) → P v → Post Q E r v
      go {v} (ok a) h = q a v h
      go {v} (err x) h = e v h

module _ {A B : Type 0} (P : World → Type 0) (R : A → World → Type 0) (Q : B → World → Type 0)
    (E : World → Type 0) where
  pub Triple-bind :
      (m : M A) (f : A → M B)
      → Triple P m R E
      → ((a : A) → Triple (R a) (f a) Q E)
      → Triple P (m >>= f) Q E
  Triple-bind m f t k = record { at = λ w h. go (m w).1 (m w).0 (t.at w h) }
    where
      go :
          (v : World) (r : Result Exception A)
          → Post R E r v
          → Post Q E (continue r f v).0 (continue r f v).1
      go v (ok a) h = (k a).at v h
      go v (err x) h = h
