-- ===== src/Config/Variables.antt =====
-- The lists of `configVariables` in backend/src/config/configDefinitions.ts, one for each category. The
-- two random secrets are arguments.
use better_pingvin_share.Prelude.{String, List, [], ◌∷◌}
use better_pingvin_share.Config.Definitions.{Entry, entry, shown, hidden, masked, locked_with}

abbrev pub internal_variables : String → String → List Entry
internal_variables jwt_secret api_token_secret =
    locked_with "jwtSecret" jwt_secret ∷ locked_with "apiTokenSecret" api_token_secret ∷ []

abbrev pub api_variables : List Entry
api_variables = shown (entry "corsAllowedOrigins" "string" "") ∷ []

abbrev pub general_variables : List Entry
general_variables =
    shown (entry "appName" "string" "Better Pingvin Share")
    ∷ shown (entry "appUrl" "string" "http://localhost:3000")
    ∷ entry "secureCookies" "boolean" "false"
    ∷ shown (entry "showHomePage" "boolean" "true")
    ∷ shown (entry "sessionDuration" "timespan" "3 months")
    ∷ []

abbrev pub share_variables : List Entry
share_variables =
    shown (entry "allowRegistration" "boolean" "true")
    ∷ shown (entry "allowUnauthenticatedShares" "boolean" "false")
    ∷ shown (entry "maxExpiration" "timespan" "0 days")
    ∷ shown (entry "defaultExpiration" "timespan" "7 days")
    ∷ shown (entry "shareIdLength" "number" "8")
    ∷ shown (entry "maxSize" "filesize" "1000000000")
    ∷ entry "zipCompressionLevel" "number" "9"
    ∷ shown (entry "chunkSize" "filesize" "10000000")
    ∷ shown (entry "autoOpenShareModal" "boolean" "false")
    ∷ shown (entry "allowAdminAccessAllShares" "boolean" "false")
    ∷ shown (entry "filesJsonPasswordProtectedLinksIncludeToken" "boolean" "false")
    ∷ shown (entry "filesJsonWebViewLinksEnabled" "boolean" "false")
    ∷ shown (entry "fileRetentionPeriod" "timespan" "0 days")
    ∷ shown (entry "expiredEditablePeriod" "timespan" "0 days")
    ∷ []

abbrev pub cache_variables : List Entry
cache_variables =
    entry "redis-enabled" "boolean" "false"
    ∷ hidden (entry "redis-url" "string" "redis://pingvin-redis:6379")
    ∷ entry "ttl" "number" "60"
    ∷ entry "maxItems" "number" "1000"
    ∷ []

abbrev pub email_variables : List Entry
email_variables =
    shown (entry "enableShareEmailRecipients" "boolean" "false")
    ∷ entry "shareRecipientsSubject" "string" "Files shared with you"
    ∷ entry "shareRecipientsMessage" "text"
        "Hey!\n\n{creator} ({creatorEmail}) shared some files with you. You can view or download the files with this link: {shareUrl}\n\nThe share will expire {expires}.\n\nNote: {desc}\n\nShared securely with Better Pingvin Share 🐧"
    ∷ entry "reverseShareSubject" "string" "Reverse share link used"
    ∷ entry "reverseShareMessage" "text"
        "Hey!\n\nA share was just created with your reverse share link: {shareUrl}\n\nShared securely with Better Pingvin Share 🐧"
    ∷ entry "resetPasswordSubject" "string" "Better Pingvin Share password reset"
    ∷ entry "resetPasswordMessage" "text"
        "Hey!\n\nYou requested a password reset. Click this link to reset your password: {url}\nThe link expires in an hour.\n\nBetter Pingvin Share 🐧"
    ∷ entry "inviteSubject" "string" "Better Pingvin Share invite"
    ∷ entry "inviteMessage" "text"
        "Hey!\n\nYou were invited to Better Pingvin Share. Click this link to accept the invite: {url}\n\nYou can use the email \"{email}\" and the password \"{password}\" to sign in.\n\nBetter Pingvin Share 🐧"
    ∷ []

abbrev pub smtp_variables : List Entry
smtp_variables =
    shown (entry "enabled" "boolean" "false")
    ∷ shown (entry "allowUnauthorizedCertificates" "boolean" "false")
    ∷ entry "host" "string" ""
    ∷ entry "port" "number" "0"
    ∷ entry "email" "string" ""
    ∷ entry "username" "string" ""
    ∷ masked (entry "password" "string" "")
    ∷ []

abbrev pub ldap_variables : List Entry
ldap_variables =
    shown (entry "enabled" "boolean" "false")
    ∷ entry "url" "string" ""
    ∷ entry "bindDn" "string" ""
    ∷ masked (entry "bindPassword" "string" "")
    ∷ entry "searchBase" "string" ""
    ∷ entry "searchQuery" "string" ""
    ∷ entry "adminGroups" "string" ""
    ∷ entry "fieldNameMemberOf" "string" "memberOf"
    ∷ entry "fieldNameEmail" "string" "userPrincipalName"
    ∷ []

abbrev pub oauth_variables : List Entry
oauth_variables =
    entry "allowRegistration" "boolean" "true"
    ∷ entry "ignoreTotp" "boolean" "true"
    ∷ shown (entry "disablePassword" "boolean" "false")
    ∷ entry "github-enabled" "boolean" "false"
    ∷ entry "github-clientId" "string" ""
    ∷ masked (entry "github-clientSecret" "string" "")
    ∷ entry "google-enabled" "boolean" "false"
    ∷ entry "google-clientId" "string" ""
    ∷ masked (entry "google-clientSecret" "string" "")
    ∷ entry "microsoft-enabled" "boolean" "false"
    ∷ entry "microsoft-tenant" "string" "common"
    ∷ entry "microsoft-clientId" "string" ""
    ∷ masked (entry "microsoft-clientSecret" "string" "")
    ∷ entry "discord-enabled" "boolean" "false"
    ∷ entry "discord-limitedGuild" "string" ""
    ∷ entry "discord-limitedUsers" "string" ""
    ∷ entry "discord-clientId" "string" ""
    ∷ masked (entry "discord-clientSecret" "string" "")
    ∷ entry "oidc-enabled" "boolean" "false"
    ∷ entry "oidc-discoveryUri" "string" ""
    ∷ entry "oidc-signOut" "boolean" "false"
    ∷ entry "oidc-scope" "string" "openid email profile"
    ∷ entry "oidc-usernameClaim" "string" ""
    ∷ entry "oidc-rolePath" "string" ""
    ∷ entry "oidc-roleGeneralAccess" "string" ""
    ∷ entry "oidc-roleAdminAccess" "string" ""
    ∷ entry "oidc-clientId" "string" ""
    ∷ masked (entry "oidc-clientSecret" "string" "")
    ∷ []

abbrev pub s3_variables : List Entry
s3_variables =
    entry "enabled" "boolean" "false"
    ∷ entry "endpoint" "string" ""
    ∷ entry "region" "string" ""
    ∷ entry "bucketName" "string" ""
    ∷ entry "bucketPath" "string" ""
    ∷ hidden (entry "key" "string" "")
    ∷ masked (entry "secret" "string" "")
    ∷ entry "useChecksum" "boolean" "true"
    ∷ []

abbrev pub legal_variables : List Entry
legal_variables =
    shown (entry "enabled" "boolean" "false")
    ∷ shown (entry "imprintText" "text" "")
    ∷ shown (entry "imprintUrl" "string" "")
    ∷ shown (entry "privacyPolicyText" "text" "")
    ∷ shown (entry "privacyPolicyUrl" "string" "")
    ∷ []

abbrev pub config_variables : String → String → List (String × List Entry)
config_variables jwt_secret api_token_secret =
    ("internal", internal_variables jwt_secret api_token_secret)
    ∷ ("api", api_variables)
    ∷ ("general", general_variables)
    ∷ ("share", share_variables)
    ∷ ("cache", cache_variables)
    ∷ ("email", email_variables)
    ∷ ("smtp", smtp_variables)
    ∷ ("ldap", ldap_variables)
    ∷ ("oauth", oauth_variables)
    ∷ ("s3", s3_variables)
    ∷ ("legal", legal_variables)
    ∷ []
