-- ===== src/Codes/Laws.antt =====
-- src/content-type.ts: the wire tags and the names of the content types.
use privchat_sdk_typescript.Prelude.{
  ℕ, zero, suc, ◌≡◌, refl, ◌≢◌, codes, arith, ltb, if◌then◌else◌, text_beq,
}
use privchat_sdk_typescript.Codes.{
  ContentTypeName, text, voice, image, video, file, system, sticker, contact_card, location, link,
  forward, red_packet, money_transfer, unknown, spelling, content_type_from_wire_tag,
  content_type_to_wire_tag,
}

tag-name :
    (name : ContentTypeName)
    → name ≢ unknown
    → content_type_from_wire_tag (content_type_to_wire_tag (codes (spelling name))) ≡ name
unfolding content_type_from_wire_tag content_type_to_wire_tag text_beq
tag-name text h = refl
tag-name voice h = refl
tag-name image h = refl
tag-name video h = refl
tag-name file h = refl
tag-name system h = refl
tag-name sticker h = refl
tag-name contact_card h = refl
tag-name location h = refl
tag-name link h = refl
tag-name forward h = refl
tag-name red_packet h = refl
tag-name money_transfer h = refl
tag-name unknown h = absurd (h refl)

name-tag :
    (tag : ℕ)
    → content_type_to_wire_tag (codes (spelling (content_type_from_wire_tag tag)))
      ≡ (if ltb tag 13 then tag else 0)
unfolding content_type_from_wire_tag content_type_to_wire_tag text_beq
name-tag zero = refl
name-tag (suc zero) = refl
name-tag (suc (suc zero)) = refl
name-tag (suc (suc (suc zero))) = refl
name-tag (suc (suc (suc (suc zero)))) = refl
name-tag (suc (suc (suc (suc (suc zero))))) = refl
name-tag (suc (suc (suc (suc (suc (suc zero)))))) = refl
name-tag (suc (suc (suc (suc (suc (suc (suc zero))))))) = refl
name-tag (suc (suc (suc (suc (suc (suc (suc (suc zero)))))))) = refl
name-tag (suc (suc (suc (suc (suc (suc (suc (suc (suc zero))))))))) = refl
name-tag (suc (suc (suc (suc (suc (suc (suc (suc (suc (suc zero)))))))))) = refl
name-tag (suc (suc (suc (suc (suc (suc (suc (suc (suc (suc (suc zero))))))))))) = refl
name-tag (suc (suc (suc (suc (suc (suc (suc (suc (suc (suc (suc (suc zero)))))))))))) = refl
name-tag (suc (suc (suc (suc (suc (suc (suc (suc (suc (suc (suc (suc (suc n))))))))))))) =
    ground arith

-- Every content type but `unknown` comes back from its wire tag, and a tag comes back from the name
-- that it decodes to if it is one of the thirteen, any other as 0.
pub content_type_wire_tag_round_trip :
    (name : ContentTypeName) (tag : ℕ)
    → name ≢ unknown
    → (content_type_from_wire_tag (content_type_to_wire_tag (codes (spelling name))) ≡ name)
      × (content_type_to_wire_tag (codes (spelling (content_type_from_wire_tag tag)))
          ≡ (if ltb tag 13 then tag else 0))
content_type_wire_tag_round_trip name tag h = (tag-name name h, name-tag tag)
