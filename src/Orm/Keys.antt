-- ===== src/Orm/Keys.antt =====
-- A row that is looked up by a condition on its primary key.
use discord_bot_backend.Prelude.{
  String, ◌≡◌, ap, sym, ◌∙◌, ◌==◌, eq_iff, Option-cases, inl, inr, arith,
}
use discord_bot_backend.Orm.{Orm}

module _ (orm : Orm) {Row : Type 0} (key : Row → String) where
  pub find_one-get :
      (k : String) (t : orm.Table Row) → orm.find_one key (λ r. key r == k) t ≡ orm.get key k t
  find_one-get k t = elim (Option-cases (orm.find_one key (λ r. key r == k) t)) [
    | inr (r, there) ↦
        let (stored, same) = orm.find_one-eq-some key (λ r. key r == k) t r there in
        there ∙ sym stored ∙ ap (λ j. orm.get key j t) ((eq_iff (key r) k).0 same)
    | inl nothing ↦ elim (Option-cases (orm.get key k t)) [
      | inl absent ↦ nothing ∙ sym absent
      | inr (r, stored) ↦
          let missed = orm.find_one-eq-none key (λ r. key r == k) t k r nothing stored in
          let met = (eq_iff (key r) k).1 (orm.get-key key k t r stored) in
          absurd (ground (arith, missed, met))
    ]
  ]
