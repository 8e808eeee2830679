-- ===== src/UserManager/Replies.antt =====
-- When the requests of mac/chatkit/cim/core/user_manager.cpp succeed, and what they leave.
use coffee_chat_desktop.Prelude.{
  ℕ, ◌≡◌, ◌↔◌, refl, ap, ◌∙◌, true, false, List, Option, none, some, arith, inl, inr, Bool-cases,
  Option-cases,
}
use coffee_chat_desktop.Prelude.Int.{pos, ◌==ℤ◌, ==ℤ_iff}
use coffee_chat_desktop.Client.{err_success}
use coffee_chat_desktop.Config.{ServerInfoConfig}
use coffee_chat_desktop.UserManager.{
  Response, Json, HttpResponseBase, Reply, returns, no_value, key_error_code, key_error_msg,
  key_nick_name, json_type, register_url, register_body, read_code, registered, register_replied,
  register_user, nick_name_url, named, generated, generate_nick_name,
}

module _ (json : Json) where
  -- What a successful answer is: the status 200, and a JSON value that is not null, with the
  -- success code and a message.
  abbrev pub Succeeds : Response → List ℕ → Type 0
  Succeeds res msg =
      (res.code ≡ pos 200)
      × ((v : json.Value) × (json.parse res.body ≡ some v)
          × (json.is_null v ≡ false)
          × (json.get_int v key_error_code ≡ some (pos err_success))
          × (json.get_string v key_error_msg ≡ some msg))

  -- The answer to a request that the JSON library writes.
  abbrev pub Registers :
      (List ℕ → List ℕ → List ℕ → Response)
      → ServerInfoConfig
      → List ℕ
      → List ℕ
      → List ℕ
      → List ℕ
      → Type 0
  Registers post info name pwd nick msg =
      (request : List ℕ) × (register_body json name pwd nick ≡ some request)
      × Succeeds (post (register_url info) json_type request) msg

  registered_done :
      (out r : HttpResponseBase) (o : Option json.Value)
      → registered json out o ≡ returns true r
      → (msg : List ℕ) × ((v : json.Value) × (o ≡ some v)
          × (json.is_null v ≡ false)
          × (json.get_int v key_error_code ≡ some (pos err_success))
          × (json.get_string v key_error_msg ≡ some msg))
  unfolding registered read_code
  registered_done out r none h = absurd (ground (arith, h))
  registered_done out r (some v) h = elim (Bool-cases (json.is_null v)) [
    | inl e ↦ absurd (ground (arith, h, e))
    | inr full ↦ elim (Option-cases (json.get_int v key_error_code)) [
      | inl e ↦ absurd (ground (arith, h, full, e))
      | inr (code, read) ↦ elim (Option-cases (json.get_string v key_error_msg)) [
        | inl e ↦ absurd (ground (arith, h, full, read, e))
        | inr (text, told) ↦ elim (Bool-cases (code ==ℤ pos err_success)) [
          | inl good ↦
              let same = (==ℤ_iff code (pos err_success)).0 good in
              (text, (v, refl, full, read ∙ ap some same, told))
          | inr bad ↦ absurd (ground (arith, h, full, read, told, bad))
        ]
      ]
    ]
  ]

  -- A success leaves its code and message.
  pub register_user_done :
      (post : List ℕ → List ℕ → List ℕ → Response) (info : ServerInfoConfig)
      (name pwd nick msg : List ℕ) (out : HttpResponseBase)
      → Registers post info name pwd nick msg
      → register_user json post info name pwd nick out
        ≡ returns true (record { code = pos err_success; msg = msg })
  unfolding register_user register_replied registered read_code
  register_user_done post info name pwd nick msg out (request, b, (s, (v, p, n, c, m))) =
      ground (arith, b, s, p, n, c, m)

  -- `registerUser` returns true exactly when the JSON library writes its request, with the name,
  -- the nickname and the MD5 digest of the password, and the answer to it is a success.
  pub register_user_iff :
      (post : List ℕ → List ℕ → List ℕ → Response) (info : ServerInfoConfig)
      (name pwd nick : List ℕ) (out : HttpResponseBase)
      → let reply : Reply HttpResponseBase = register_user json post info name pwd nick out in
        ((r : HttpResponseBase) × (reply ≡ returns true r))
        ↔ ((msg : List ℕ) × Registers post info name pwd nick msg)
  unfolding register_user register_replied registered read_code
  register_user_iff post info name pwd nick out = (
    λ (r, h). elim (Option-cases (register_body json name pwd nick)) [
      | inl e ↦ absurd (ground (arith, h, e))
      | inr (request, b) ↦
          let res = post (register_url info) json_type request in
          elim (Bool-cases (res.code ==ℤ pos 200)) [
            | inl e ↦
                let (msg, (v, p, n, c, m)) =
                  registered_done out r (json.parse res.body) (ground (arith, h, b, e)) in
                (msg, (request, b, ((==ℤ_iff res.code (pos 200)).0 e, (v, p, n, c, m))))
            | inr e ↦ absurd (ground (arith, h, b, e))
          ]
    ],
    λ (msg, done). (
      record { code = pos err_success; msg = msg },
      register_user_done post info name pwd nick msg out done,
    ),
  )

  generated_null :
      (nick : List ℕ) (out : HttpResponseBase) (o : Option json.Value)
      (left : List ℕ × HttpResponseBase)
      → generated json nick out o ≡ no_value left
      → (v : json.Value) × (o ≡ some v) × (json.is_null v ≡ true) × (left ≡ (nick, out))
  unfolding generated named
  generated_null nick out none left h = absurd (ground (arith, h))
  generated_null nick out (some v) left h = elim (Bool-cases (json.is_null v)) [
    | inl null ↦
        let e : generated json nick out (some v) ≡ no_value (nick, out) = ground (arith, null) in
        (v, refl, null, cc (h, e))
    | inr full ↦ elim (Option-cases (read_code json v out).0) [
      | inl e ↦ absurd (ground (arith, h, full, e))
      | inr (r, e) ↦ elim (Bool-cases (r.code ==ℤ pos err_success)) [
        | inr c ↦ absurd (ground (arith, h, full, e, c))
        | inl c ↦ elim (Option-cases (json.get_string v key_nick_name)) [
          | inl s ↦ absurd (ground (arith, h, full, e, c, s))
          | inr (new, s) ↦ absurd (ground (arith, h, full, e, c, s))
        ]
      ]
    ]
  ]

  generate_nick_name_null :
      (get : List ℕ → Response) (info : ServerInfoConfig) (nick : List ℕ) (out : HttpResponseBase)
      (left : List ℕ × HttpResponseBase)
      → generate_nick_name json get info nick out ≡ no_value left
      → ((get (nick_name_url info)).code ≡ pos 200)
        × ((v : json.Value) × (json.parse (get (nick_name_url info)).body ≡ some v)
            × (json.is_null v ≡ true)
            × (left ≡ (nick, out)))
  unfolding generate_nick_name
  generate_nick_name_null get info nick out left h =
      let res = get (nick_name_url info) in
      elim (Bool-cases (res.code ==ℤ pos 200)) [
        | inl e ↦ (
          (==ℤ_iff res.code (pos 200)).0 e,
          generated_null nick out (json.parse res.body) left (ground (arith, h, e)),
        )
        | inr e ↦ absurd (ground (arith, h, e))
      ]

  -- `generateNickName` runs off its end, without a value to return, exactly when the server answers
  -- with the status 200 and the JSON value null; and whenever it does, its output arguments are as
  -- they were.
  pub generate_nick_name_iff :
      (get : List ℕ → Response) (info : ServerInfoConfig) (nick : List ℕ) (out : HttpResponseBase)
      → (((left : List ℕ × HttpResponseBase) × (generate_nick_name json get info nick out
              ≡ no_value left))
          ↔ (((get (nick_name_url info)).code ≡ pos 200)
              × ((v : json.Value) × (json.parse (get (nick_name_url info)).body ≡ some v)
                  × (json.is_null v ≡ true))))
        × ((left : List ℕ × HttpResponseBase)
            → generate_nick_name json get info nick out ≡ no_value left
            → left ≡ (nick, out))
  unfolding generate_nick_name generated
  generate_nick_name_iff get info nick out =
      let res = get (nick_name_url info) in
      (
        (
          λ (left, h).
              (let (c, (v, p, null, same)) = generate_nick_name_null get info nick out left h in
                (c, (v, p, null))),
          λ (c, (v, p, null)). ((nick, out), ground (arith, c, p, null)),
        ),
        λ left h.
            (let (c, (v, p, null, same)) = generate_nick_name_null get info nick out left h in
              same),
      )
