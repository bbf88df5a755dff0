-- ===== src/Llm/Management/Save.antt =====
-- How a change to an account ends: its audit entry, and the write of its key.
use lycosa.Prelude.{
  ℕ, Option, none, some, List, [], ◌∷◌, ◌++◌, Text, text, if◌then◌else◌, nat_comparable,
  text_comparable,
}
use lycosa.Llm.Accounts.{Account}
use lycosa.Llm.Management.{
  Credential, AccountAudit, Registry, Managed, done, credential_unavailable, broke, AccountServices,
  is_valid_secret, drop_credential, write_credential,
}

module _ {X : Type 0} (services : AccountServices X) where
  open services use {
    stack, urls, networks, role_of, spec_of, node_of, new_id, uses_keyring, set_password, seal,
  }

  -- The row that `store_credential` writes, by the store that the settings name.
  unfoldable pub sealed_rows : ℕ → Text → List Credential → X → Managed (List Credential) × X
  unfolding drop_credential
  sealed_rows id secret rows x =
      if uses_keyring
      then (let (stored, x') = set_password id secret x in
          (
            if stored
                then done (write_credential rows id (text "keyring") none)
                else credential_unavailable,
            x',
          ))
      else (let (sealed, x') = seal id secret x in
          (done (write_credential rows id (text "db") (some sealed)), x'))

  -- `store_credential`, on the rows and the state outside; a secret that is not valid raises a
  -- ValueError.
  unfoldable pub store_credential : ℕ → Text → List Credential → X → Managed (List Credential) × X
  unfolding is_valid_secret sealed_rows
  store_credential id secret rows x =
      if is_valid_secret urls.strip secret then sealed_rows id secret rows x else (broke, x)

  -- A failed request is not committed.
  abbrev pub failed {ℓ} : {A : Type ℓ} → Managed A → Registry X → X → Managed A × Registry X
  failed why w x = (why, record w { ext = x })

  -- The key of a new or changed account, in its row.
  abbrev pub with_key :
      Account
      → Registry X
      → Managed (List Credential) × X
      → Registry X
      → Managed Account × Registry X
  with_key account before (done rows, x) w =
      (done account, record w { ext = x; credentials = rows })
  with_key account before (credential_unavailable, x) w = failed credential_unavailable before x
  with_key account before (_, x) w = failed broke before x

  -- The audit entry and the write of the key; `before` is what a failure leaves.
  unfoldable pub save :
      Account → Option Text → AccountAudit → Registry X → Registry X → Managed Account × Registry X
  unfolding store_credential
  save account none entry before w = (done account, record w { audits = w.audits ++ entry ∷ [] })
  save account (some secret) entry before w =
      with_key account before (store_credential account.id secret w.credentials w.ext)
        (record w { audits = w.audits ++ entry ∷ [] })

  -- An empty key is none.
  abbrev pub filled_or_none : Option Text → Option Text
  filled_or_none none = none
  filled_or_none (some []) = none
  filled_or_none (some (c ∷ key)) = some (c ∷ key)
