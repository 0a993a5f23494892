-- ===== src/Naming/Paths.antt =====
-- Different uplinks have different files.
use uplinkmgr.Prelude.{
  ==_of_ne, ==_refl, ◌≡◌, ap, [], ◌∷◌, ◌++◌, Text, text, ◌==◌, ◌&&◌, eqb, length, length-append,
  arith,
}
use uplinkmgr.Naming.{env_file_path, radvd_conf_path}

==-append_right : (s t x : Text) → (s ++ x == t ++ x) ≡ (s == t)
unfolding ◌==◌
==-append_right [] [] x = ==_refl x
==-append_right [] (d ∷ t) x =
    ==_of_ne x (d ∷ t ++ x) (λ e. omega (arith, ap length e, length-append t x))
==-append_right (c ∷ s) [] x =
    ==_of_ne (c ∷ s ++ x) x (λ e. omega (arith, ap length e, length-append s x))
==-append_right (c ∷ s) (d ∷ t) x = ap (λ b. eqb c d && b) (==-append_right s t x)

-- Two names have the same path exactly if they are the same.
pub env_file_path-== : (n m : Text) → (env_file_path n == env_file_path m) ≡ (n == m)
unfolding ◌==◌ env_file_path text
env_file_path-== n m = ==-append_right n m (text ".env")

pub radvd_conf_path-== : (n m : Text) → (radvd_conf_path n == radvd_conf_path m) ≡ (n == m)
unfolding ◌==◌ radvd_conf_path text
radvd_conf_path-== n m = ==-append_right n m (text ".conf")
